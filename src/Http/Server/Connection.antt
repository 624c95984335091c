-- ===== src/Http/Server/Connection.antt =====
-- `HandleNewConn`: the loop over one connection.
use libarc.Prelude.{
  ℕ, Bool, true, false, not, ◌&&◌, Option, none, some, List, [], ◌∷◌, ◌++◌, ltb, if◌then◌else◌,
  length, empty, Outcome, ok, ◌>>=◌,
}
use libarc.Prelude.Bytes.{Bytes}
use libarc.Http.Query.{Curl}
use libarc.Http.Message.{HttpRequest, HttpResponse, HttpLibrary, new_request}
use libarc.Http.Parser.{parse_once, is_success}
use libarc.Http.Print.{print_response}
use libarc.Http.Server.{Regex, HttpServer, is_need_return, respond, default_response, bad_request}

-- The inner loop: what `Recv` gives, where nothing stands for an error or the end, until a read that
-- does not fill the buffer. With the reads that are left; `none` is a loop that still waits.
unfoldable pub read_all : (read_buffer_size : ℕ) → List Bytes → Option (Bytes × List Bytes)
read_all size [] = none
read_all size (chunk ∷ rest) =
    let more = read_all size rest in
    if empty chunk
    then some ([], rest)
    else if ltb (length chunk) size
    then some (chunk, rest)
    else elim more [ none ↦ none | some (recv, rest') ↦ some (chunk ++ recv, rest') ]

module _ (E : Curl) (L : HttpLibrary) (R : Regex) (s : HttpServer) where
  abbrev pub Sent : Type 0
  Sent = List Bytes × Bool

  abbrev pub prepend : Bytes → Outcome Sent → Outcome Sent
  prepend text m = m >>= λ r. ok (text ∷ r.0, r.1)

  unfoldable pub answer : Bool → HttpRequest → Outcome HttpResponse
  answer true r = respond R s r
  answer false r = default_response s bad_request r

  -- The outer loop, over what each run of the inner one has received: the texts sent, and whether
  -- the connection is closed. A failed `Send` is only logged.
  unfoldable pub serve : List Bytes → L.Parser → HttpRequest → Outcome Sent
  serve [] parser request = ok ([], false)
  serve (recv ∷ rest) parser request = elim (empty recv) [
    | true ↦ ok ([], true)
    | false ↦ parse_once E L parser recv request >>= λ x.
        let good = is_success x.0 in
        elim (good && not x.2.parts.is_complete) [
          | true ↦ serve rest x.1 x.2
          | false ↦ answer good x.2 >>= λ response.
              let text = (print_response E L response).0 in
              elim (good && is_need_return x.2) [
                | true ↦ ok (text ∷ [], true)
                | false ↦ prepend text (serve rest L.init_request new_request)
              ]
        ]
  ]
