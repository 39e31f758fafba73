-- ===== src/Hardware/Macs.antt =====
-- The addresses of a node's ports: decoded from their names without loss, each once.
use mathlib.Core.Path.{subst}
use proxmoxve_integration.Prelude.{
  ℕ, zero, suc, ◌≡◌, refl, ap, ◌∙◌, List, [], ◌∷◌, ◌++◌, Bool, true, false, not, Option, none, some,
  ◌==◌, ◌||◌, list_eq, nat_eq, length, take, drop, all, any, keep, contains, arith, and_true,
  option_eq, Option-cases, inl, inr, ℕ_discrete,
}
use proxmoxve_integration.Prelude.Sets.{NoRepeat, append_new-NoRepeat, contains-append_new}
use proxmoxve_integration.Prelude.Text.{Text, text, starts_with, join}
use proxmoxve_integration.Json.{Value, Fields, rows, dicts}
use proxmoxve_integration.Hardware.{
  is_hex_char, pairs, mac_of_altname, decoded, add_mac, note_macs, port_names, note_ports,
  parse_mac_addresses,
}

abbrev pub without_colons : Text → Text
without_colons s = keep (λ c. not (c == b':')) s

-- What follows the first pair.
abbrev join_behind : List Text → Text
join_behind [] = []
join_behind (p ∷ ps) = b':' ∷ join b':' (p ∷ ps)

hex-colon : (c : ℕ) → is_hex_char c ≡ true → (c == b':') ≡ false
hex-colon c h = ground (arith, h)

without_colons-hex :
    (c : ℕ) (s t : Text)
    → is_hex_char c ≡ true
    → without_colons s ≡ t
    → without_colons (c ∷ s) ≡ c ∷ t
without_colons-hex c s t h same = rw (hex-colon c h) (ap (λ r. c ∷ r) same)

without_colons-colon : (s : Text) → without_colons (b':' ∷ s) ≡ without_colons s
unfolding ℕ_discrete
without_colons-colon s = refl

-- Of the digits behind the first two.
joined-rest :
    (s : Text)
    → without_colons (join b':' (pairs s)) ≡ s
    → without_colons (join_behind (pairs s)) ≡ s
unfolding join
joined-rest [] same = refl
joined-rest (c ∷ []) same = without_colons-colon (c ∷ []) ∙ same
joined-rest (c ∷ d ∷ s) same = without_colons-colon (join b':' (pairs (c ∷ d ∷ s))) ∙ same

join-pair : (a b : ℕ) (ps : List Text) → join b':' ((a ∷ b ∷ []) ∷ ps) ≡ a ∷ b ∷ join_behind ps
unfolding join
join-pair a b [] = refl
join-pair a b (p ∷ ps) = refl

without_colons-join :
    (s : Text) → all is_hex_char s ≡ true → without_colons (join b':' (pairs s)) ≡ s
unfolding join
without_colons-join [] h = refl
without_colons-join (a ∷ []) h = without_colons-hex a [] [] (and_true (is_hex_char a) true h).0 refl
without_colons-join (a ∷ b ∷ s) h =
    let (first, rest) = and_true (is_hex_char a) (all is_hex_char (b ∷ s)) h in
    let (second, others) = and_true (is_hex_char b) (all is_hex_char s) rest in
    rw (join-pair a b (pairs s)) (
      without_colons-hex a (b ∷ join_behind (pairs s)) (b ∷ s) first (
        without_colons-hex b (join_behind (pairs s)) s second
          (joined-rest s (without_colons-join s others))))

take_all {ℓ} :
    {A : Type ℓ} (n : ℕ) (xs : List A) → length xs ≡ n → (take n xs ≡ xs) × (drop n xs ≡ [])
take_all zero [] h = (refl, refl)
take_all zero (x ∷ xs) h = ground (arith, h)
take_all (suc n) [] h = (refl, refl)
take_all (suc n) (x ∷ xs) h =
    let (t, d) = take_all n xs (ground (arith, h)) in (ap (λ ys. x ∷ ys) t, d)

-- The name of a port with twelve hexadecimal digits is decoded, and the address without its colons gives the
-- digits back.
without_colons-mac_of_altname :
    (digits : Text)
    → length digits ≡ 12
    → all is_hex_char digits ≡ true
    → (mac : Text) × (mac_of_altname (text "enx" ++ digits) ≡ some mac)
      × (without_colons mac ≡ digits)
unfolding mac_of_altname starts_with ℕ_discrete
without_colons-mac_of_altname digits len hex =
    let (front, back) = take_all 12 digits len in
    (join b':' (pairs digits), rw (front, back, len, hex) refl, without_colons-join digits hex)

abbrev pub is_decoded : Text → Value → Bool
is_decoded m v = decoded v == some m

-- A physical port with a name that stands for an address.
abbrev pub port_has : Text → Fields → Bool
port_has m port = elim (port_names port) [ none ↦ false | some names ↦ any (is_decoded m) names ]

contains-add_mac :
    (o : Option Text) (found : List Text) (m : Text)
    → contains (add_mac o found) m ≡ (contains found m || o == some m)
contains-add_mac none found m = ground arith
contains-add_mac (some mac) found m = ground (arith, contains-append_new found mac m)

add_mac-NoRepeat :
    (o : Option Text) (found : List Text) → NoRepeat found → NoRepeat (add_mac o found)
add_mac-NoRepeat none found n = n
add_mac-NoRepeat (some mac) found n = append_new-NoRepeat found mac n

note_macs-NoRepeat :
    (names : List Value) (found : List Text) → NoRepeat found → NoRepeat (note_macs names found)
note_macs-NoRepeat [] found n = n
note_macs-NoRepeat (v ∷ names) found n =
    note_macs-NoRepeat names (add_mac (decoded v) found) (add_mac-NoRepeat (decoded v) found n)

contains-note_macs :
    (names : List Value) (found : List Text) (m : Text)
    → contains (note_macs names found) m ≡ (contains found m || any (is_decoded m) names)
contains-note_macs [] found m = ground arith
contains-note_macs (v ∷ names) found m =
    contains-note_macs names (add_mac (decoded v) found) m
    ∙ ground (arith, contains-add_mac (decoded v) found m)

abbrev Listed : Option (List Text) → List Fields → List Text → Type 0
Listed none ports found = Unit
Listed (some macs) ports found =
    NoRepeat macs × ((m : Text) → contains macs m ≡ (contains found m || any (port_has m) ports))

Listed-shift :
    (o : Option (List Text)) (port : Fields) (ports : List Fields) (found more : List Text)
    → ((m : Text) → contains more m ≡ (contains found m || port_has m port))
    → Listed o ports more
    → Listed o (port ∷ ports) found
Listed-shift none port ports found more c h = tt
Listed-shift (some macs) port ports found more c (n, h) = (n, λ m. h m ∙ ground (arith, c m))

Listed-note_ports :
    (ports : List Fields) (found : List Text)
    → NoRepeat found
    → Listed (note_ports ports found) ports found
Listed-note_ports [] found n = (n, λ m. ground arith)
Listed-note_ports (port ∷ ports) found n = elim (Option-cases (port_names port)) [
  | inl e ↦ rw (e, Listed) tt
  | inr (names, e) ↦
      rw (e, Listed)
        (Listed-shift (note_ports ports (note_macs names found)) port ports found
          (note_macs names found) (λ m. rw (e, port_has) (contains-note_macs names found m))
          (Listed-note_ports ports (note_macs names found) (note_macs-NoRepeat names found n)))
]

-- A node's addresses are each listed once, and they are exactly those that a name of one of its physical
-- ports stands for.
pub parse_mac_addresses-NoRepeat :
    (interfaces : Value) (macs : List Text) (m : Text)
    → parse_mac_addresses interfaces ≡ some macs
    → NoRepeat macs × (contains macs m ≡ any (port_has m) (dicts (rows interfaces)))
unfolding parse_mac_addresses
parse_mac_addresses-NoRepeat interfaces macs m h =
    let (n, c) =
      subst (λ o. Listed o (dicts (rows interfaces)) []) h
        (Listed-note_ports (dicts (rows interfaces)) [] tt) in
    (n, c m)
