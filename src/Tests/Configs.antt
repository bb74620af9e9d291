-- ===== src/Tests/Configs.antt =====
-- src/config.rs and the reading of answers in src/wire.rs.
use hopdns.Base.{ℕ, suc, List, [], ◌∷◌, ◌++◌, none, some, ◌≡◌, ◌≢◌, refl, length}
use hopdns.Config.{Flags, parse, parse_args, flag_of, name_of, is_help, is_known, set_flag}
use hopdns.Config.FlagLaws.{AllFull, parse-AllFull}
use hopdns.Config.Peers.{with_host_alias, split_scheme, user_host, show_ip, show_byte}
use hopdns.Config.Scalars.{
  unquote, split_key, raw_key, split_bare, ends_key, is_quote, starts_with_space,
}
use hopdns.Config.Scalars.Laws.{escaped, unquote-escaped}
use hopdns.Config.Blames.{Blames, parse-Blames}
use hopdns.Errors.{ok, err, unexpected_argument}
use hopdns.Text.{
  Text, codes, text_eq, strip_prefix, split_once, is_empty, rsplit_once, split_pieces,
}
use hopdns.Text.Space.{trim, trim_start, trim_end}
use hopdns.Wire.Decode.{read_name_walk}
use hopdns.Wire.Decode.Ends.{Ended, read_name-Ended}

abbrev arguments : List Text
arguments = codes "-peer" ∷ codes "http://a:8080" ∷ codes "--domain=corp" ∷ []

abbrev flags : Flags
flags = record {
  listen = codes ":5353";
  peers = codes "http://a:8080" ∷ [];
  domain = codes "corp";
  api_key = [];
  config = none;
}

arguments_read : parse arguments ≡ ok flags
unfolding parse parse_args flag_of name_of is_help is_known set_flag strip_prefix split_once text_eq
    is_empty trim
arguments_read = refl

parse-AllFull_example : (flags.peers ≢ []) × AllFull flags.peers
parse-AllFull_example = parse-AllFull arguments flags arguments_read

unquote-escaped_example :
    unquote (34 ∷ escaped (104 ∷ 34 ∷ 92 ∷ []) ++ 34 ∷ []) ≡ some (104 ∷ 34 ∷ 92 ∷ [])
unquote-escaped_example = unquote-escaped (104 ∷ 34 ∷ 92 ∷ [])

-- A label and a pointer back to it: a loop, which ends by the length of the name.
abbrev looping : List ℕ
looping = 1 ∷ b'a' ∷ 0xC0 ∷ 0 ∷ []

read_name-Ended_example : Ended (read_name_walk 256 (suc (length looping)) looping 0 [] none)
read_name-Ended_example = read_name-Ended looping 0

-- The alias of a host.
alias_replaced :
    with_host_alias (codes " http://key@HOP:9080/x") (codes "HOP") (10, 0, 42, 200)
    ≡ codes "http://key@10.0.42.200:9080/x"
unfolding with_host_alias split_scheme user_host show_ip show_byte strip_prefix rsplit_once
    split_pieces text_eq trim
alias_replaced = refl

-- A character of several bytes behind a colon ends the search for the key, and the line is refused.
key_with_accent : split_key (b'a' ∷ b':' ∷ 0xC3 ∷ 0xA9 ∷ b':' ∷ b' ' ∷ b'x' ∷ []) ≡ none
unfolding split_key raw_key split_bare ends_key is_quote starts_with_space is_empty strip_prefix
    trim_start trim_end
key_with_accent = refl

-- The second argument is no flag.
misplaced : parse (codes "-peer=http://a" ∷ codes "east" ∷ []) ≡ err (unexpected_argument 1)
unfolding parse parse_args flag_of name_of is_help is_known set_flag strip_prefix split_once text_eq
    is_empty trim
misplaced = refl

parse-Blames_example : Blames (unexpected_argument 1) (codes "-peer=http://a" ∷ codes "east" ∷ [])
parse-Blames_example =
    parse-Blames (codes "-peer=http://a" ∷ codes "east" ∷ []) (unexpected_argument 1) misplaced
