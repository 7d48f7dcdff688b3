-- ===== src/Probe/Iperf/Documents.antt =====
-- The results that are read from an output of several documents.
use Prim.Native.String.{String, ◌++◌ as ◌<>◌}
use text.Mathlib.Text.{◌==◌}
use text.Mathlib.TextLemmas as Text
use network_listener.Prelude.{
  ◌≡◌, refl, ap, sym, ◌∙◌, true, false, Option, some, List, [], ◌∷◌, ◌++◌, map, All,
}
use network_listener.Probe.Iperf.{Line, line, finished, push_line, read_results}

-- neither brace alone
abbrev pub IsInner : String → Type 0
IsInner text = ((text == "{") ≡ false) × ((text == "}") ≡ false)

-- the text of some lines
abbrev pub unlines : List String → String
unlines [] = ""
unlines (text ∷ rest) = text <> ("\n" <> unlines rest)

-- A JSON document as iperf3 prints it, with braces of its own line at the outermost level only, behind
-- other output.
pub record Document (R : Type 0) : Type 0 where
  pub noise : List String
  pub body : List String
  pub result : R

module _ {R : Type 0} (from_str : String → Option R) where
  abbrev pub lines_of : Document R → List String
  lines_of d = d.noise ++ "{" ∷ (d.body ++ "}" ∷ [])

  pub record IsDocument (d : Document R) : Type 0 where
    pub noise_inner : All IsInner d.noise
    pub body_inner : All IsInner d.body
    pub parses : from_str (unlines ("{" ∷ (d.body ++ "}" ∷ []))) ≡ some d.result

  inner_lines :
      (buffer : String) (texts : List String) (rest : List Line)
      → All IsInner texts
      → read_results from_str true buffer (map line texts ++ rest)
        ≡ read_results from_str true (buffer <> unlines texts) rest
  unfolding read_results
  inner_lines buffer [] rest h =
      ap (λ b. read_results from_str true b rest) (sym (Text.append-nil buffer))
  inner_lines buffer (t ∷ ts) rest h =
      rw (h.0.1, h.0.0)
        (inner_lines (buffer <> (t <> "\n")) ts rest h.1
          ∙ ap (λ b. read_results from_str true b rest) regrouped)
    where
      regrouped : ((buffer <> (t <> "\n")) <> unlines ts) ≡ (buffer <> (t <> ("\n" <> unlines ts)))
      regrouped =
          Text.append_assoc buffer (t <> "\n") (unlines ts)
          ∙ ap (λ u. buffer <> u) (Text.append_assoc t "\n" (unlines ts))

  lines_split :
      (xs ys : List String) (rest : List Line)
      → (map line (xs ++ ys) ++ rest) ≡ (map line xs ++ (map line ys ++ rest))
  lines_split [] ys rest = refl
  lines_split (x ∷ xs) ys rest = ap (λ l. line x ∷ l) (lines_split xs ys rest)

  unlines_last : (texts : List String) → (unlines texts <> "}\n") ≡ unlines (texts ++ "}" ∷ [])
  unlines_last [] = refl
  unlines_last (t ∷ ts) =
      Text.append_assoc t ("\n" <> unlines ts) "}\n"
      ∙ ap (λ u. t <> u)
          (Text.append_assoc "\n" (unlines ts) "}\n" ∙ ap (λ u. "\n" <> u) (unlines_last ts))

  -- from the opening brace on, whatever the buffer holds
  braces :
      (d : Document R) (buffer : String) (rest : List Line)
      → IsDocument d
      → read_results from_str true buffer (line "{" ∷ (map line (d.body ++ "}" ∷ []) ++ rest))
        ≡ (let more = read_results from_str true "" rest in (d.result ∷ more.0, more.1))
  unfolding read_results
  braces d buffer rest h =
      ap (read_results from_str true "{\n") (lines_split d.body ("}" ∷ []) rest)
      ∙ inner_lines "{\n" d.body (line "}" ∷ rest) h.body_inner
      ∙ rw closed refl
    where
      closed : from_str (("{\n" <> unlines d.body) <> "}\n") ≡ some d.result
      closed =
          ap from_str (
            Text.append_assoc "{\n" (unlines d.body) "}\n"
            ∙ ap (λ u. "{\n" <> u) (unlines_last d.body))
          ∙ ap from_str (Text.append_assoc "{" "\n" (unlines (d.body ++ "}" ∷ [])))
          ∙ h.parses

  document_lem :
      (d : Document R) (buffer : String) (rest : List Line)
      → IsDocument d
      → read_results from_str true buffer (map line (lines_of d) ++ rest)
        ≡ (let more = read_results from_str true "" rest in (d.result ∷ more.0, more.1))
  document_lem d buffer rest h =
      ap (read_results from_str true buffer) (lines_split d.noise _ rest)
      ∙ inner_lines buffer d.noise _ h.noise_inner
      ∙ braces d (buffer <> unlines d.noise) rest h

  abbrev pub output_of : List (Document R) → List String → List Line
  output_of [] noise = map line noise
  output_of (d ∷ ds) noise = map line (lines_of d) ++ output_of ds noise

  abbrev pub results_of : List (Document R) → List R
  results_of [] = []
  results_of (d ∷ ds) = d.result ∷ results_of ds

  noise_lem :
      (buffer : String) (noise : List String)
      → All IsInner noise
      → read_results from_str true buffer (map line noise) ≡ ([], finished)
  unfolding read_results
  noise_lem buffer [] h = refl
  noise_lem buffer (t ∷ ts) h = rw (h.0.1) (noise_lem (push_line from_str true buffer t) ts h.1)

  -- While results can be sent: of an output that consists of any number of documents, with any other
  -- lines before, between and behind them that are no brace alone, exactly the documents are parsed,
  -- each from its own lines, and their results are sent in their order, without a panic.
  pub read_results-documents :
      (ds : List (Document R)) (noise : List String) (buffer : String)
      → All IsDocument ds
      → All IsInner noise
      → read_results from_str true buffer (output_of ds noise) ≡ (results_of ds, finished)
  read_results-documents [] noise buffer h n = noise_lem buffer noise n
  read_results-documents (d ∷ ds) noise buffer h n =
      document_lem d buffer (output_of ds noise) h.0
      ∙ rw (read_results-documents ds noise "" h.1 n) refl
