-- ===== src/Http/Server/Pipeline.antt =====
-- One connection, request after request.
use libarc.Prelude.{
  ℕ, ◌≤◌, ◌≡◌, refl, ◌∙◌, true, false, none, List, [], ◌∷◌, map, length, empty, ok, arith,
}
use libarc.Prelude.Bytes.{Bytes}
use libarc.Prelude.Int.{pos}
use libarc.Http.Query.{Curl}
use libarc.Http.Message.{HttpRequest, HttpResponse, HttpLibrary, new_request}
use libarc.Http.Parser.{parse_once}
use libarc.Http.Print.{print_response}
use libarc.Http.Server.{Regex, HttpServer, is_need_return, respond}
use libarc.Http.Server.Connection.{read_all, answer, serve, prepend}

-- Reads that all fill the buffer.
abbrev pub AllFull : ℕ → List Bytes → Type 0
AllFull size [] = Unit
AllFull size (chunk ∷ rest) = (length chunk ≡ size) × AllFull size rest

-- As long as every read has filled the buffer, the inner loop waits for another one: a request whose
-- length is a multiple of the buffer's size is not answered until the client sends more or closes.
pub read_all-waits :
    (size : ℕ) (reads : List Bytes) → 1 ≤ size → AllFull size reads → read_all size reads ≡ none
unfolding read_all
read_all-waits size [] some_room full = refl
read_all-waits size (chunk ∷ rest) some_room (e, full) =
    let later = read_all-waits size rest some_room full in go chunk e later
  where
    go :
        (chunk : Bytes)
        → length chunk ≡ size
        → read_all size rest ≡ none
        → read_all size (chunk ∷ rest) ≡ none
    go [] e later = absurd (omega arith)
    go (c ∷ cs) e later = ground arith

module _ (E : Curl) (L : HttpLibrary) (R : Regex) (s : HttpServer) where
  -- What a fresh parser makes of one received text: a complete request, that is answered with
  -- `text`, and after which the connection stays open.
  pub record IsAnswered (recv text : Bytes) : Type 0 where
    pub received : empty recv ≡ false
    pub parser : L.Parser
    pub request : HttpRequest
    pub response : HttpResponse
    pub parsed : parse_once E L L.init_request recv new_request ≡ ok (pos 0, parser, request)
    pub complete : request.parts.is_complete ≡ true
    pub stays : is_need_return request ≡ false
    pub responded : respond R s request ≡ ok response
    pub printed : (print_response E L response).0 ≡ text

  abbrev pub AllAnswered : List (Bytes × Bytes) → Type 0
  AllAnswered [] = Unit
  AllAnswered ((recv, text) ∷ xs) = IsAnswered recv text × AllAnswered xs

  serve_one :
      (recv text : Bytes) (rest : List Bytes)
      → IsAnswered recv text
      → serve E L R s (recv ∷ rest) L.init_request new_request
        ≡ prepend E L R s text (serve E L R s rest L.init_request new_request)
  unfolding serve answer
  serve_one recv text rest a =
      let r = a.received in
      let p = a.parsed in
      let c = a.complete in
      let k = a.stays in let h = a.responded in let t = a.printed in ground arith

  -- Requests that come one after the other, each complete in what one run of the inner loop
  -- receives, and that do not ask to close, are answered in order, each as a fresh connection would
  -- answer it, and the connection stays open.
  pub serve_pipeline :
      (xs : List (Bytes × Bytes))
      → AllAnswered xs
      → serve E L R s (map (λ x. x.0) xs) L.init_request new_request ≡ ok (map (λ x. x.1) xs, false)
  unfolding serve
  serve_pipeline [] a = refl
  serve_pipeline ((recv, text) ∷ xs) (a, others) =
      let later = serve_pipeline xs others in
      serve_one recv text (map (λ x. x.0) xs) a ∙ rw later refl
