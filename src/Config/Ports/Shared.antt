-- ===== src/Config/Ports/Shared.antt =====
-- Which ports a text of src/core/config.cpp shares.
use madoka.Common.{
  ℕ, zero, suc, ◌+◌, ◌-◌, ◌≡◌, refl, ap, sym, ◌∙◌, Bool, true, false, ◌&&◌, ◌||◌, List, [], ◌∷◌,
  ◌++◌, Option, none, some, arith, take, drop, ltb, leb, ◌==◌, if◌then◌else◌, any_of, Bool-cases,
  inl, inr,
}
use madoka.Bytes.{bytes_eq, bytes_eq_iff}
use madoka.Config.Text.{parse_port, trim, trim_front, trim_back, from_chars}
use madoka.Config.Endpoint.{find_char}
use madoka.Config.Ports.{
  SharedPorts, tokens_of, push_ports, push_range, push_port, read_token, append_ports, read_tokens,
  place_port, sort_ports, join_equal, unique, parse_port_list, none_text, binary_search,
  is_port_shared,
}

abbrev has : ℕ → List ℕ → Bool
has port ps = any_of (λ p. p == port) ps

search-place :
    (port q : ℕ) (ps : List ℕ)
    → binary_search port (place_port q ps) ≡ ((q == port) || binary_search port ps)
unfolding place_port binary_search
search-place port q [] = ground arith
search-place port q (p ∷ ps) = ground (arith, search-place port q ps)

search-sort : (port : ℕ) (ps : List ℕ) → binary_search port (sort_ports ps) ≡ has port ps
unfolding sort_ports any_of binary_search
search-sort port [] = refl
search-sort port (p ∷ ps) =
    search-place port p (sort_ports ps) ∙ ap (λ b. (p == port) || b) (search-sort port ps)

search-join :
    (port p : ℕ) (ps : List ℕ) → binary_search port (join_equal p ps) ≡ binary_search port (p ∷ ps)
unfolding binary_search
search-join port p [] = refl
search-join port p (q ∷ qs) = ground arith

search-unique : (port : ℕ) (ps : List ℕ) → binary_search port (unique ps) ≡ binary_search port ps
unfolding unique binary_search
search-unique port [] = refl
search-unique port (p ∷ ps) =
    search-join port p (unique ps)
    ∙ ap (λ b. if ltb p port then b else p == port) (search-unique port ps)

has-push :
    (port low count : ℕ)
    → has port (push_ports low count) ≡ (leb low port && ltb port (low + count))
unfolding push_ports any_of
has-push port low zero = ground arith
has-push port low (suc count) = rw (has-push port (low + 1) count) (ground arith)

has-append : (port : ℕ) (xs ys : List ℕ) → has port (xs ++ ys) ≡ (has port xs || has port ys)
unfolding any_of
has-append port [] ys = refl
has-append port (x ∷ xs) ys = ground (arith, has-append port xs ys)

abbrev in_range : Option ℕ → Option ℕ → ℕ → Bool
in_range none high port = false
in_range (some low) none port = false
in_range (some low) (some high) port = leb low port && leb port high

abbrev is_the : Option ℕ → ℕ → Bool
is_the none port = false
is_the (some p) port = p == port

-- Whether a token names a port: a number is the port, or two numbers around the first dash have it
-- between them.
unfoldable pub names : ℕ → List ℕ → Bool
names port token = elim (find_char 45 token) [
  | none ↦ is_the (parse_port token) port
  | some dash ↦ in_range (parse_port (take dash token)) (parse_port (drop (dash + 1) token)) port
]

has-range :
    (port : ℕ) (low high : Option ℕ) (ps : List ℕ)
    → push_range low high ≡ some ps
    → has port ps ≡ in_range low high port
has-range port none high ps h = absurd cc
has-range port (some low) none ps h = absurd cc
has-range port (some low) (some high) ps h = ground (arith, h, has-push port low (high - low + 1))

has-port :
    (port : ℕ) (p : Option ℕ) (ps : List ℕ) → push_port p ≡ some ps → has port ps ≡ is_the p port
unfolding any_of
has-port port none ps h = absurd cc
has-port port (some p) ps h = ground (arith, h)

has-read_at :
    (port : ℕ) (token ps : List ℕ) (at : Option ℕ)
    → find_char 45 token ≡ at
    → read_token token ≡ some ps
    → has port ps ≡ names port token
unfolding read_token names
has-read_at port token ps none e h = ground (arith, e, h, has-port port (parse_port token) ps)
has-read_at port token ps (some dash) e h =
    let low = parse_port (take dash token) in
    let high = parse_port (drop (dash + 1) token) in
    ground (arith, e, h, has-range port low high ps)

has-read_token :
    (port : ℕ) (token ps : List ℕ) → read_token token ≡ some ps → has port ps ≡ names port token
has-read_token port token ps h = has-read_at port token ps (find_char 45 token) refl h

append-inv :
    (a b : Option (List ℕ)) (ps : List ℕ)
    → append_ports a b ≡ some ps
    → (own : List ℕ) × ((rest : List ℕ) × ((a ≡ some own) × ((b ≡ some rest) × (ps ≡ own ++ rest))))
append-inv none b ps h = absurd cc
append-inv (some own) none ps h = absurd cc
append-inv (some own) (some rest) ps h = (own, (rest, (refl, (refl, ground (arith, h)))))

has-read_tokens :
    (port : ℕ) (tokens : List (List ℕ)) (ps : List ℕ)
    → read_tokens tokens ≡ some ps
    → has port ps ≡ any_of (λ token. names port (trim token)) tokens
unfolding read_tokens any_of
has-read_tokens port [] ps h = ground (arith, h)
has-read_tokens port (token ∷ tokens) ps h =
    let (own, (rest, (a, (b, e)))) =
      append-inv (read_token (trim token)) (read_tokens tokens) ps h in
    ap (has port) e
    ∙ has-append port own rest
    ∙ rw (has-read_token port (trim token) own a, has-read_tokens port tokens rest b) refl

names-none_text :
    (port : ℕ) → any_of (λ token. names port (trim token)) (tokens_of none_text) ≡ false
unfolding any_of names tokens_of trim trim_front trim_back find_char parse_port from_chars
names-none_text port = refl

-- The word `none` shares nothing.
keyword-empty :
    (value : List ℕ) (config : SharedPorts)
    → bytes_eq (trim value) none_text ≡ true
    → parse_port_list value ≡ some config
    → config.share_all_ports ≡ false
    → config.shared_ports ≡ []
unfolding parse_port_list
keyword-empty value config k h all = ground (arith, k, h, all)

sorted-parsed :
    (value : List ℕ) (config : SharedPorts) (parsed : Option (List ℕ))
    → read_tokens (tokens_of (trim value)) ≡ parsed
    → bytes_eq (trim value) none_text ≡ false
    → parse_port_list value ≡ some config
    → config.share_all_ports ≡ false
    → (ps : List ℕ) × ((parsed ≡ some ps) × (config.shared_ports ≡ unique (sort_ports ps)))
unfolding parse_port_list
sorted-parsed value config none e other h all = absurd (ground (arith, e, other, h, all))
sorted-parsed value config (some ps) e other h all = (ps, (refl, ground (arith, e, other, h, all)))

search-nothing : (port : ℕ) → binary_search port [] ≡ false
unfolding binary_search
search-nothing port = refl

search-tokens :
    (value : List ℕ) (config : SharedPorts) (port : ℕ)
    → parse_port_list value ≡ some config
    → config.share_all_ports ≡ false
    → binary_search port config.shared_ports
      ≡ any_of (λ token. names port (trim token)) (tokens_of (trim value))
search-tokens value config port h all = elim (Bool-cases (bytes_eq (trim value) none_text)) [
  | inl keyword ↦
      let text = (bytes_eq_iff (trim value) none_text).0 keyword in
      let empty = keyword-empty value config keyword h all in
      ap (binary_search port) empty
      ∙ search-nothing port
      ∙ sym (names-none_text port)
      ∙ ap (λ t. any_of (λ token. names port (trim token)) (tokens_of t)) (sym text)
  | inr other ↦
      let (ps, (read, ports)) =
        sorted-parsed value config (read_tokens (tokens_of (trim value))) refl other h all in
      ap (binary_search port) ports
      ∙ search-unique port (sort_ports ps)
      ∙ search-sort port ps
      ∙ has-read_tokens port (tokens_of (trim value)) ps read
]

-- When `parse_port_list` accepts a text and does not share all ports, `is_port_shared` then says of every
-- port whether one of the tokens between the commas of the trimmed text names it.
pub parse_port_list-shared :
    (value : List ℕ) (config : SharedPorts) (port : ℕ)
    → parse_port_list value ≡ some config
    → config.share_all_ports ≡ false
    → is_port_shared config port
      ≡ any_of (λ token. names port (trim token)) (tokens_of (trim value))
unfolding is_port_shared
parse_port_list-shared value config port h all = rw all (search-tokens value config port h all)
