-- ===== src/Tracking/Link/Filtering.antt =====
-- Which packets are filtered out before they reach a link.
use network_listener.Prelude.{
  Bool, ◌||◌, ◌/◌, ◌^◌, ◌≤◌, ◌⊎◌, ◌↔◌, ◌≡◌, ℕ, true, Option, none, some, arith, inl, inr,
}
use network_listener.Packet.Ip.{IpAddr, v4, v6, is_loopback, is_multicast}
use network_listener.Packet.Parsed.{ParsedPacket, get_src_dst_port}
use network_listener.Config.{AppConfig}
use network_listener.Tracking.StreamId.{ip_pair_hashed, ip_pairable}
use network_listener.Tracking.Link.{is_filtered, is_server_port}

-- 127.0.0.0/8, 224.0.0.0/4, ::1 and ff00::/8
abbrev pub IsSpecial : IpAddr → Type 0
IsSpecial (v4 a) = (a / 2 ^ 24 ≡ 127) ⊎ ((224 ≤ a / 2 ^ 24) × (a / 2 ^ 24 ≤ 239))
IsSpecial (v6 a) = (a ≡ 1) ⊎ (a / 2 ^ 120 ≡ 255)

abbrev pub UsesPort : ℕ → Option (ℕ × ℕ) → Type 0
UsesPort port none = ⊥
UsesPort port (some (src_port, dst_port)) = (src_port ≡ port) ⊎ (dst_port ≡ port)

IsSpecial-iff : (ip : IpAddr) → (is_loopback ip ≡ true) ⊎ (is_multicast ip ≡ true) ↔ IsSpecial ip
unfolding is_loopback is_multicast
IsSpecial-iff (v4 a) = (λ e. ground arith, λ e. ground arith)
IsSpecial-iff (v6 a) = (λ e. ground arith, λ e. ground arith)

is_server_port_iff :
    (port : ℕ) (ends : Option (ℕ × ℕ)) → (is_server_port port ends ≡ true) ↔ UsesPort port ends
unfolding is_server_port
is_server_port_iff port none = (λ e. cc, λ e. absurd e)
is_server_port_iff port (some (src, dst)) = (λ e. ground arith, λ e. ground arith)

any_filter :
    (a b c d e : Bool)
    → (a || b || c || d || e ≡ true)
      ↔ (((a ≡ true) ⊎ (c ≡ true)) ⊎ ((b ≡ true) ⊎ (d ≡ true)) ⊎ (e ≡ true))
any_filter a b c d e = (λ h. ground arith, λ h. ground arith)

-- A packet is filtered out exactly if one of its addresses is a loopback or multicast address, or one
-- of its ports is that of the server.
pub is_filtered_iff :
    (config : AppConfig) (packet : ParsedPacket)
    → (is_filtered config packet ≡ true) ↔ (
        IsSpecial packet.src_ip
        ⊎ IsSpecial packet.dst_ip
        ⊎ UsesPort config.server.port (get_src_dst_port packet))
unfolding is_filtered
is_filtered_iff config packet =
    let (src, src') = IsSpecial-iff packet.src_ip in
    let (dst, dst') = IsSpecial-iff packet.dst_ip in
    let (port, port') = is_server_port_iff config.server.port (get_src_dst_port packet) in
    let (only, also) =
      any_filter (is_loopback packet.src_ip) (is_loopback packet.dst_ip)
        (is_multicast packet.src_ip) (is_multicast packet.dst_ip)
        (is_server_port config.server.port (get_src_dst_port packet)) in
    (
      λ e. elim (only e) [
        | inl s ↦ inl (src s)
        | inr (inl d) ↦ inr (inl (dst d))
        | inr (inr p) ↦ inr (inr (port p))
      ],
      λ e. elim e [
        | inl s ↦ also (inl (src' s))
        | inr (inl d) ↦ also (inr (inl (dst' d)))
        | inr (inr p) ↦ also (inr (inr (port' p)))
      ],
    )
