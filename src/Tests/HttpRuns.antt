-- ===== src/Tests/HttpRuns.antt =====
-- Queries, callbacks and printed messages, with an encoding that writes each byte as two letters.
use libarc.Prelude.{
  ℕ, ◌+◌, ◌-◌, ◌*◌, ◌/◌, ◌%◌, ◌≡◌, ◌≢◌, ◌≤◌, refl, ap, Bool, true, false, Option, none, some, List,
  [], ◌∷◌, ◌++◌, length, drop, Outcome, ok, undefined, replicate, arith,
}
use libarc.Prelude.Bytes.{Bytes, bytes, Lacks, same}
use libarc.Prelude.Assoc.{lookup}
use libarc.Http.Query.{Curl, Entries, parse_query, print_queries}
use libarc.Http.Query.RoundTrip.{CurlLaws, IsReadable, parse_query-print_queries}
use libarc.Http.Message.{
  on_url, on_message_complete, HttpLibrary, HttpResponse, no_parts, new_response, handle_parts,
}
use libarc.Http.Callbacks.{handle_parts-message_events, message_events}
use libarc.Http.Print.{print_response, content_length}
use libarc.Http.Framing.{IsLengthFor, last, print_response-framed, value}

abbrev letters : Bytes → Bytes
letters [] = []
letters (c ∷ s) = (65 + c / 16) ∷ (65 + c % 16) ∷ letters s

abbrev unletters : Bytes → Bytes
unletters [] = []
unletters (a ∷ []) = []
unletters (a ∷ b ∷ s) = ((a - 65) * 16 + (b - 65)) ∷ unletters s

abbrev pub lettered : Curl
lettered = record { escape = letters; unescape = unletters }

unletters-letters : (s : Bytes) → unletters (letters s) ≡ s
unletters-letters [] = refl
unletters-letters (c ∷ s) =
    let back : (65 + c / 16 - 65) * 16 + (65 + c % 16 - 65) ≡ c = omega arith in
    let rest = unletters-letters s in rw (back, rest) refl

letters-Lacks : (k : ℕ) (s : Bytes) → k ≤ 61 → Lacks k (letters s)
letters-Lacks k [] h = tt
letters-Lacks k (c ∷ s) h = (omega arith, (omega arith, letters-Lacks k s h))

lettered_laws : CurlLaws lettered
lettered_laws = record {
  unescape-escape = unletters-letters;
  unescape-nil = refl;
  no_equal_sign = λ s. letters-Lacks 61 s (omega arith);
  no_ampersand = λ s. letters-Lacks 38 s (omega arith);
}

abbrev two_queries : Entries
two_queries = (bytes "a", bytes "x&y") ∷ (bytes "b", bytes "=") ∷ []

two_queries-IsReadable : IsReadable two_queries
unfolding lookup same
two_queries-IsReadable = (cc, cc, refl, (cc, cc, refl, tt))

parse_query-print_queries_example :
    parse_query lettered (drop 1 (print_queries lettered 0 two_queries)) [] ≡ two_queries
parse_query-print_queries_example =
    parse_query-print_queries lettered_laws two_queries two_queries-IsReadable

-- A parser that reads all of a text at once, as the URL of a complete request.
abbrev pub at_once : HttpLibrary
at_once = record {
  Parser = ℕ;
  init_request = 0;
  init_response = 0;
  execute = λ p text. elim text [
    | [] ↦ (p, [], 0)
    | c ∷ cs ↦ (p, on_url (c ∷ cs) ∷ on_message_complete ∷ [], length (c ∷ cs))
  ];
  is_upgrade = λ p. false;
  http_errno = λ p. 0;
  method = λ p. 1;
  http_major = λ p. 1;
  http_minor = λ p. 1;
  status_code = λ p. 200;
  method_str = λ m. bytes "GET";
  status_str = λ s. bytes "OK";
  url_path = λ url. some url;
  url_query = λ url. none;
}

handle_parts-message_events_example :
    (store : Bytes) × (handle_parts no_parts (
        message_events
          ((bytes "Host", bytes "h") ∷ (bytes "Host", bytes "i") ∷ [])
          (bytes "ab" ∷ bytes "c" ∷ []))
      ≡ ok (record {
        headers = (bytes "Host", bytes "i") ∷ [];
        body = bytes "abc";
        is_complete = true;
        temporary_store = store;
      }))
unfolding libarc.Prelude.Assoc.assign same
handle_parts-message_events_example =
    handle_parts-message_events ((bytes "Host", bytes "h") ∷ (bytes "Host", bytes "i") ∷ [])
      (bytes "ab" ∷ bytes "c" ∷ []) no_parts (cc, (cc, tt))

abbrev hello : HttpResponse
hello = record new_response { parts = record no_parts { body = bytes "hello" } }

print_response-framed_example :
    ((v : Bytes) × (lookup content_length (print_response lettered at_once hello).1.parts.headers
        ≡ some v)
      × IsLengthFor [] (bytes "hello") v
      × (lookup {V = Bytes} content_length [] ≡ none
          → last (value v) (print_response lettered at_once hello).0 ≡ bytes "hello"))
    × ((key : Bytes)
        → same content_length key ≡ false
        → lookup key (print_response lettered at_once hello).1.parts.headers
          ≡ lookup {V = Bytes} key [])
    × (print_response lettered at_once (print_response lettered at_once hello).1
        ≡ print_response lettered at_once hello)
print_response-framed_example = print_response-framed lettered at_once hello
