-- ===== src/Http/Print.antt =====
-- `GetReturnStringFromHttpResponse` and `GetReturnStringFromHttpRequest` of src/http/http_parser.cc.
use libarc.Prelude.{
  ℕ, zero, suc, ◌+◌, ◌/◌, ◌%◌, none, some, [], ◌∷◌, ◌++◌, ltb, if◌then◌else◌, length, is_some,
}
use libarc.Prelude.Bytes.{Bytes, bytes}
use libarc.Prelude.Assoc.{lookup, assign}
use libarc.Http.Query.{Curl, Entries, print_queries}
use libarc.Http.Message.{Parts, HttpRequest, HttpResponse, HttpLibrary}

-- `std::to_string`, with fuel for as many digits; a number has at most as many as it counts, and one.
unfoldable pub digits : (fuel n : ℕ) → Bytes
digits zero n = []
digits (suc fuel) n =
    let rest = digits fuel (n / 10) in
    if ltb n 10 then (48 + n) ∷ [] else rest ++ (48 + n % 10) ∷ []

abbrev pub to_string : ℕ → Bytes
to_string n = digits (n + 1) n

abbrev pub new_line : Bytes
new_line = 13 ∷ 10 ∷ []

abbrev pub content_length : Bytes
content_length = bytes "Content-Length"

unfoldable pub print_headers : Entries → Bytes
print_headers [] = []
print_headers ((key, value) ∷ headers) =
    key ++ bytes ": " ++ value ++ new_line ++ print_headers headers

unfoldable pub with_content_length : Parts → Entries
with_content_length p = elim (lookup content_length p.headers) [
  | none ↦ assign content_length (to_string (length p.body)) p.headers
  | some v ↦ p.headers
]

module _ (E : Curl) (L : HttpLibrary) where
  abbrev pub status_line : HttpResponse → Bytes
  status_line r =
      bytes "HTTP/"
      ++ to_string r.http_major_version
      ++ bytes "."
      ++ to_string r.http_minor_version
      ++ bytes " "
      ++ to_string r.status
      ++ bytes " "
      ++ L.status_str r.status
      ++ new_line

  -- Returns the response too, whose headers may have got a Content-Length.
  unfoldable pub print_response : HttpResponse → Bytes × HttpResponse
  print_response r =
      let headers = with_content_length r.parts in
      (
        status_line r ++ print_headers headers ++ new_line ++ r.parts.body,
        record r { parts = record r.parts { headers = headers } },
      )

  abbrev pub request_line : HttpRequest → Bytes
  request_line r =
      L.method_str r.method
      ++ bytes " "
      ++ r.path
      ++ print_queries E 0 r.queries
      ++ bytes " HTTP/"
      ++ to_string r.http_major_version
      ++ bytes "."
      ++ to_string r.http_minor_version
      ++ new_line

  abbrev pub content_length_line : Parts → Bytes
  content_length_line p =
      if is_some (lookup content_length p.headers)
      then []
      else bytes "Content-Length: " ++ to_string (length p.body) ++ new_line

  unfoldable pub print_request : HttpRequest → Bytes
  print_request r =
      request_line r
      ++ content_length_line r.parts
      ++ print_headers r.parts.headers
      ++ new_line
      ++ r.parts.body
