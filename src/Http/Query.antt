-- ===== src/Http/Query.antt =====
-- The query of a URL, read and written as at the end of src/http/http_parser.cc.
pub mod RoundTrip
use libarc.Prelude.{
  ℕ, zero, suc, ◌+◌, ◌-◌, Bool, true, ◌&&◌, Option, none, some, List, [], ◌∷◌, ◌++◌, ltb, leb,
  if◌then◌else◌, length, take,
}
use libarc.Prelude.Bytes.{Bytes, find, find_from, substr}
use libarc.Prelude.Assoc.{assign}

abbrev pub equal_sign : ℕ
equal_sign = 61

abbrev pub ampersand : ℕ
ampersand = 38

abbrev pub question_mark : ℕ
question_mark = 63

-- curl_easy_escape and curl_easy_unescape.
pub record Curl : Type 0 where
  pub escape : Bytes → Bytes
  pub unescape : Bytes → Bytes

abbrev pub Entries : Type 0
Entries = List (Bytes × Bytes)

module _ (E : Curl) where
  -- Whether the parts around the first `=` are not empty.
  abbrev pub is_pair : (size equal_sign_pos : ℕ) → Bool
  is_pair size equal_sign_pos =
      leb 3 size && (ltb 0 equal_sign_pos && ltb equal_sign_pos (size - 1))

  unfoldable pub parse_one_pair : Bytes → Entries → Entries
  parse_one_pair query queries = elim (find equal_sign query) [
    | none ↦ queries
    | some pos ↦
        if is_pair (length query) pos
        then assign (E.unescape (substr query 0 pos))
            (E.unescape (substr query (pos + 1) (length query - pos - 1))) queries
        else queries
  ]

  -- The loop of `ParseQuery`, with fuel. A round begins a position further at least.
  unfoldable pub parse_loop : (fuel : ℕ) → Bytes → (start_itr : ℕ) → Entries → Entries
  parse_loop zero text start queries = queries
  parse_loop (suc fuel) text start queries = elim (find_from ampersand start text) [
    | none ↦ parse_one_pair (substr text start (length text - start)) queries
    | some stop ↦
        let queries' = parse_one_pair (substr text start (stop - start)) queries in
        let rest = parse_loop fuel text (stop + 1) queries' in
        if leb (stop + 1) (length text) then rest else queries'
  ]

  unfoldable pub parse_query : Bytes → Entries → Entries
  parse_query text queries = parse_loop (length text + 1) text 0 queries

  abbrev pub print_pair : Bytes × Bytes → Bytes
  print_pair (key, value) = E.escape key ++ equal_sign ∷ E.escape value

  -- The loop of `GetReturnStringFromHttpRequest` over the queries.
  unfoldable pub print_queries : (query_cnt : ℕ) → Entries → Bytes
  print_queries query_cnt [] = []
  print_queries zero (e ∷ es) = question_mark ∷ (print_pair e ++ print_queries 1 es)
  print_queries (suc n) (e ∷ es) = ampersand ∷ (print_pair e ++ print_queries (suc (suc n)) es)
