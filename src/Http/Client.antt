-- ===== src/Http/Client.antt =====
-- `HttpClient::Request` of include/arc/http/http_client.h. The connection is given by whether the
-- request could be sent, and by what `Recv` gives, as in Http/Server/Connection.antt.
use libarc.Prelude.{
  ℕ, zero, suc, ◌≡◌, refl, Bool, true, false, Option, none, some, List, [], ◌∷◌, if◌then◌else◌,
  replicate, Outcome, ok, ◌>>=◌,
}
use libarc.Prelude.Bytes.{Bytes}
use libarc.Http.Query.{Curl}
use libarc.Http.Message.{HttpRequest, HttpResponse, HttpLibrary, handle_parts, new_response}
use libarc.Http.Parser.{parse_response, describe_response, is_success}
use libarc.Http.Print.{print_request}

abbrev pub invalid : HttpResponse → HttpResponse
invalid r = record r { is_valid = false }

module _ (E : Curl) (L : HttpLibrary) where
  -- Over what each run of the inner loop receives; `none` is a loop that still waits. The flag that
  -- the end of the connection resets is set again before it is read.
  unfoldable pub read_response :
      List Bytes → L.Parser → HttpResponse → Outcome (Option HttpResponse)
  read_response [] parser response = ok none
  read_response (recv ∷ rest) parser response = parse_response E L parser recv response >>= λ x.
      elim (is_success x.0) [
        | false ↦ ok (some (invalid x.2))
        | true ↦ elim x.2.parts.is_complete [
          | true ↦ ok (some x.2)
          | false ↦ read_response rest x.1 x.2
        ]
      ]

  -- With the text that is sent.
  unfoldable pub request :
      HttpRequest → (is_sent : Bool) → List Bytes → Bytes × Outcome (Option HttpResponse)
  request r is_sent reads = (
    print_request E L r,
    if is_sent
        then read_response reads L.init_response new_response
        else ok (some (invalid new_response)),
  )

  -- If the parser reads the end of the connection without an error, a callback or a change, as it
  -- does before the first byte of a response, the client never returns, however often it reads.
  pub read_response-closed :
      (parser : L.Parser) (n : ℕ) (response : HttpResponse)
      → L.execute parser [] ≡ (parser, [], 0)
      → L.http_errno parser ≡ 0
      → response.parts.is_complete ≡ false
      → read_response (replicate n []) parser response ≡ ok none
  unfolding read_response parse_response handle_parts
  read_response-closed parser zero response reads none_wrong waits = refl
  read_response-closed parser (suc n) response reads none_wrong waits =
      let later =
        read_response-closed parser n (describe_response E L parser response) reads none_wrong
          waits in
      rw (reads, none_wrong, waits, read_response, parse_response) later
