-- ===== src/Config/Peers.antt =====
-- src/config.rs: the listen address, the peers, and the alias of a host.
use hopdns.Base.{
  ℕ, ◌+◌, ◌-◌, ◌*◌, ◌/◌, ◌%◌, not, ◌&&◌, ◌||◌, List, [], ◌∷◌, ◌++◌, Option, none, some, leb, ltb,
  ◌==◌, if◌then◌else◌, length, drop,
}
use hopdns.Cache.{Ip}
use hopdns.Errors.{Result, ok, err, bad_listen, bad_peer}
use hopdns.Text
use hopdns.Text.{
  Text, codes, text_eq, eq_ignore_ascii_case, strip_prefix, rsplit_once, split_pieces, split,
}
use hopdns.Text.Space.{trim}
use hopdns.Watcher.Build.{parse_ipv4}

-- `u16::from_str`: digits, with a plus in front or not.
unfoldable pub read_digits : ℕ → Text → Option ℕ
read_digits n [] = some n
read_digits n (c ∷ t) =
    let rest = read_digits (n * 10 + (c - b'0')) t in
    if leb b'0' c && leb c b'9' then rest else none

unfoldable pub parse_u16 : Text → Option ℕ
parse_u16 t =
    let digits : Text = elim (strip_prefix t (codes "+")) [ some d ↦ d | none ↦ t ] in
    if Text.is_empty digits
    then none
    else elim (read_digits 0 digits) [ some n ↦ if ltb n 65536 then some n else none | none ↦ none ]

unfoldable pub listen_host : Text → Option Ip
listen_host host =
    if Text.is_empty host
    then some 0
    else if text_eq host (codes "localhost")
    then some 0x7F000001
    else parse_ipv4 (split (λ c. c == b'.') host)

unfoldable pub parse_listen : Text → Result (Ip × ℕ)
parse_listen s = elim (rsplit_once b':' s) [
  | none ↦ err bad_listen
  | some (host, port) ↦ elim (parse_u16 port) [
    | none ↦ err bad_listen
    | some p ↦ elim (listen_host host) [ none ↦ err bad_listen | some ip ↦ ok (ip, p) ]
  ]
]

pub record Peer : Type 0 where
  pub endpoint : Text
  pub api_key : Option Text

-- `split_once("://")`.
unfoldable pub split_scheme : Text → Option (Text × Text)
split_scheme [] = none
split_scheme (c ∷ t) =
    let rest = split_scheme t in
    elim (strip_prefix (c ∷ t) (codes "://")) [
      | some r ↦ some ([], r)
      | none ↦ elim rest [ some (a, b) ↦ some (c ∷ a, b) | none ↦ none ]
    ]

-- `find('/')` and `split_at`.
unfoldable pub split_path : Text → Text × Text
split_path [] = ([], [])
split_path (c ∷ t) = let (a, b) = split_path t in if c == b'/' then ([], c ∷ t) else (c ∷ a, b)

-- `trim_end_matches('/')`.
unfoldable pub without_slashes : Text → Text
without_slashes [] = []
without_slashes (c ∷ t) =
    let rest = without_slashes t in if c == b'/' && Text.is_empty rest then [] else c ∷ rest

-- The key and the host.
unfoldable pub key_host : Text → Text → Text × Text
key_host authority default_key = elim (rsplit_once b'@' authority) [
  | some (user, host) ↦ ((split_pieces (λ c. c == b':') user).0, host)
  | none ↦ (default_key, authority)
]

unfoldable pub peer_of : Text → Text → Text → Text → Result Peer
peer_of scheme path key host =
    if Text.is_empty host
    then err bad_peer
    else ok (record {
      endpoint = scheme ++ (codes "://" ++ (host ++ without_slashes path));
      api_key = if Text.is_empty key then none else some key;
    })

-- `Peer::parse`.
unfoldable pub parse_peer : Text → Text → Result Peer
parse_peer raw default_key = elim (split_scheme (trim raw)) [
  | none ↦ err bad_peer
  | some (scheme, rest) ↦
      if not
        (eq_ignore_ascii_case scheme (codes "http") || eq_ignore_ascii_case scheme (codes "https"))
      then err bad_peer
      else let (authority, path) = split_path rest in
        let (key, host) = key_host authority default_key in peer_of scheme path key host
]

-- `map(trim).filter(not empty)`.
unfoldable pub trimmed : List Text → List Text
trimmed [] = []
trimmed (p ∷ ps) = if Text.is_empty (trim p) then trimmed ps else trim p ∷ trimmed ps

unfoldable pub peer_list : Text → List Text
peer_list s = trimmed (split (λ c. c == b',') s)

-- A byte in decimal, as `{a}` writes it.
unfoldable pub show_byte : ℕ → Text
show_byte n =
    if ltb n 10
    then (n + b'0') ∷ []
    else if ltb n 100
    then (n / 10 + b'0') ∷ (n % 10 + b'0') ∷ []
    else (n / 100 + b'0') ∷ (n / 10 % 10 + b'0') ∷ (n % 10 + b'0') ∷ []

unfoldable pub show_ip : ℕ × ℕ × ℕ × ℕ → Text
show_ip (a, b, c, d) =
    show_byte a ++ (b'.' ∷ (show_byte b ++ (b'.' ∷ (show_byte c ++ (b'.' ∷ show_byte d)))))

-- The user part, with its `@`, and the host with its port.
unfoldable pub user_host : Text → Text × Text
user_host authority = elim (rsplit_once b'@' authority) [
  | some (user, host) ↦ (user ++ b'@' ∷ [], host)
  | none ↦ ([], authority)
]

-- `with_host_alias`.
unfoldable pub with_host_alias : Text → Text → ℕ × ℕ × ℕ × ℕ → Text
with_host_alias raw alias ip = elim (split_scheme (trim raw)) [
  | none ↦ trim raw
  | some (scheme, rest) ↦
      let authority = (split_pieces (λ c. c == b'/' || c == b'?' || c == b'#') rest).0 in
      let (user, hostport) = user_host authority in
      let host = (split_pieces (λ c. c == b':') hostport).0 in
      if not (text_eq host alias)
      then trim raw
      else scheme
        ++ (codes "://" ++ (user ++ (show_ip ip ++ drop (length user + length host) rest)))
]
