-- ===== src/Scheduler/Database/Rows.antt =====
-- The rows that the statements store, read off their text and their parameters.
use Prim.Native.String.{String}
use network_listener.Prelude.{
  ℕ, zero, suc, ◌+◌, ◌-◌, ◌≡◌, refl, sym, ap, ap₂, ◌∙◌, Option, none, some, List, [], ◌∷◌, ◌++◌,
  map, drop, length, length-append, append_assoc, append-nil, arith,
}
use network_listener.Packet.Ip.{IpAddr}
use network_listener.Scheduler.Database.{
  text, param, column, table, Query, Value, addr, Statement, range, join, insert_query, insert_into,
}

-- the numbers of the placeholders, as they stand in the query
abbrev pub params_of : Query → List ℕ
params_of [] = []
params_of (param i ∷ rest) = i ∷ params_of rest
params_of (text s ∷ rest) = params_of rest
params_of (column s ∷ rest) = params_of rest
params_of (table s ∷ rest) = params_of rest

abbrev pub columns_of : Query → List String
columns_of [] = []
columns_of (column s ∷ rest) = s ∷ columns_of rest
columns_of (text s ∷ rest) = columns_of rest
columns_of (param i ∷ rest) = columns_of rest
columns_of (table s ∷ rest) = columns_of rest

abbrev pub table_of : Query → Option String
table_of [] = none
table_of (table s ∷ rest) = some s
table_of (text s ∷ rest) = table_of rest
table_of (column s ∷ rest) = table_of rest
table_of (param i ∷ rest) = table_of rest

module _ {A : Type 0} where
  -- what the placeholder with this number stands for
  abbrev pub value_of : List A → ℕ → Option A
  value_of [] i = none
  value_of (v ∷ vs) zero = none
  value_of (v ∷ vs) (suc zero) = some v
  value_of (v ∷ vs) (suc (suc i)) = value_of vs (suc i)

abbrev pub zip : {A B : Type 0} → List A → List B → List (A × B)
zip [] ys = []
zip (x ∷ xs) [] = []
zip (x ∷ xs) (y ∷ ys) = (x, y) ∷ zip xs ys

-- the values of a row stand last in its query, one for each column
pub record Row (F T : Type 0) : Type 0 where
  pub table : Option String
  pub fields : List (String × Option (Value F T))
  pub bound : List (Option (Value F T))

params_of-append : (p q : Query) → params_of (p ++ q) ≡ params_of p ++ params_of q
params_of-append [] q = refl
params_of-append (param i ∷ p) q = ap (λ l. i ∷ l) (params_of-append p q)
params_of-append (text s ∷ p) q = params_of-append p q
params_of-append (column s ∷ p) q = params_of-append p q
params_of-append (table s ∷ p) q = params_of-append p q

columns_of-append : (p q : Query) → columns_of (p ++ q) ≡ columns_of p ++ columns_of q
columns_of-append [] q = refl
columns_of-append (column s ∷ p) q = ap (λ l. s ∷ l) (columns_of-append p q)
columns_of-append (text s ∷ p) q = columns_of-append p q
columns_of-append (param i ∷ p) q = columns_of-append p q
columns_of-append (table s ∷ p) q = columns_of-append p q

params_of-join : (is : List ℕ) → params_of (join (map param is)) ≡ is
unfolding join
params_of-join [] = refl
params_of-join (i ∷ []) = refl
params_of-join (i ∷ j ∷ is) = ap (λ l. i ∷ l) (params_of-join (j ∷ is))

params_of-join_columns : (cs : List String) → params_of (join (map column cs)) ≡ []
unfolding join
params_of-join_columns [] = refl
params_of-join_columns (c ∷ []) = refl
params_of-join_columns (c ∷ d ∷ cs) = params_of-join_columns (d ∷ cs)

columns_of-join : (cs : List String) → columns_of (join (map column cs)) ≡ cs
unfolding join
columns_of-join [] = refl
columns_of-join (c ∷ []) = refl
columns_of-join (c ∷ d ∷ cs) = ap (λ l. c ∷ l) (columns_of-join (d ∷ cs))

columns_of-join_params : (is : List ℕ) → columns_of (join (map param is)) ≡ []
unfolding join
columns_of-join_params [] = refl
columns_of-join_params (i ∷ []) = refl
columns_of-join_params (i ∷ j ∷ is) = columns_of-join_params (j ∷ is)

length-range : (i n : ℕ) → length (range i n) ≡ n
unfolding range
length-range i zero = refl
length-range i (suc n) = ap suc (length-range (i + 1) n)

query_params :
    (name : String) (cols : List String) (n : ℕ)
    → params_of (insert_query name cols n) ≡ 1 ∷ 2 ∷ 1 ∷ 2 ∷ range 3 n
unfolding insert_query
query_params name cols n =
    simp (params_of-append, params_of-join, params_of-join_columns, append-nil)

query_columns :
    (name : String) (cols : List String) (n : ℕ) → columns_of (insert_query name cols n) ≡ cols
unfolding insert_query
query_columns name cols n =
    simp (columns_of-append, columns_of-join, columns_of-join_params, append-nil)

query_table :
    (name : String) (cols : List String) (n : ℕ) → table_of (insert_query name cols n) ≡ some name
unfolding insert_query
query_table name cols n = refl

module _ {F T : Type 0} where
  value_of-append :
      (before vs : List (Value F T)) (v : Value F T)
      → value_of (before ++ v ∷ vs) (suc (length before)) ≡ some v
  value_of-append [] vs v = refl
  value_of-append (b ∷ before) vs v = value_of-append before vs v

  -- the values behind the first parameters
  values_from :
      (before vs : List (Value F T))
      → map (value_of (before ++ vs)) (range (suc (length before)) (length vs)) ≡ map some vs
  unfolding range
  values_from before [] = refl
  values_from before (v ∷ vs) = ap₂ ◌∷◌ (value_of-append before vs v) (
      ap₂ (λ (ps : List (Value F T)) k. map (value_of ps) (range k (length vs)))
        (sym (append_assoc before (v ∷ []) vs)) (sym next)
      ∙ values_from (before ++ v ∷ []) vs)
    where
      next : suc (length (before ++ v ∷ [])) ≡ suc (length before) + 1
      next = omega (arith, length-append before (v ∷ []))

  abbrev pub row_from : Option String → List ℕ → List String → List (Value F T) → Row F T
  row_from name numbers columns params = record {
    table = name;
    fields = zip columns (map (value_of params) (drop (length numbers - length columns) numbers));
    bound = map (value_of params) numbers;
  }

  abbrev pub row_of : Statement F T → Row F T
  row_of st = row_from (table_of st.query) (params_of st.query) (columns_of st.query) st.params

  row_from_lem :
      (s r : Value F T) (name : String) (cols : List String) (vs : List (Value F T))
      → length cols ≡ length vs
      → row_from (some name) (1 ∷ 2 ∷ 1 ∷ 2 ∷ range 3 (length vs)) cols (s ∷ r ∷ vs) ≡ record {
        table = some name;
        fields = zip cols (map some vs);
        bound = some s ∷ some r ∷ some s ∷ some r ∷ map some vs;
      }
  row_from_lem s r name cols vs same = rw (four, values_from (s ∷ r ∷ []) vs) refl
    where
      four : length (1 ∷ 2 ∷ 1 ∷ 2 ∷ range 3 (length vs)) - length cols ≡ 4
      four = omega (arith, length-range 3 (length vs), same)

  pub insert_into_lem :
      (s r : Option IpAddr) (name : String) (cols : List String) (vs : List (Value F T))
      → length cols ≡ length vs
      → row_of (insert_into s r name cols vs) ≡ record {
        table = some name;
        fields = zip cols (map some vs);
        bound = some (addr s) ∷ some (addr r) ∷ some (addr s) ∷ some (addr r) ∷ map some vs;
      }
  unfolding insert_into
  insert_into_lem s r name cols vs same =
      (λ i.
        row_from (query_table name cols (length vs) i) (query_params name cols (length vs) i)
          (query_columns name cols (length vs) i) (addr s ∷ addr r ∷ vs))
      ∙ row_from_lem (addr s) (addr r) name cols vs same
