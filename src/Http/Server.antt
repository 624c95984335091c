-- ===== src/Http/Server.antt =====
-- `HttpServer` of include/arc/http/http_server.h and src/http/http_server.cc: which handler answers
-- a request, and the loop over one connection.
pub mod Listening
pub mod Connection
pub mod Routing
pub mod Pipeline
use libarc.Prelude.{
  ℕ, zero, suc, ◌+◌, ◌*◌, Bool, true, false, not, ◌&&◌, Option, none, some, List, [], ◌∷◌, ◌++◌,
  ◌==◌, ltb, if◌then◌else◌, length, empty, Outcome, ok, undefined, throws, Exception, ◌>>=◌,
}
use libarc.Prelude.Bytes.{Bytes, bytes, same}
use libarc.Prelude.Assoc.{lookup, assign}
use libarc.Http.Query.{Curl, Entries}
use libarc.Http.Message.{HttpRequest, HttpResponse, HttpLibrary, new_request, new_response}
use libarc.Http.Parser.{parse_once, is_success}
use libarc.Http.Print.{print_response}

-- A handler is what its coroutine makes of the request and the response; the connection is not
-- looked at.
abbrev pub Handler : Type 0
Handler = HttpRequest → HttpResponse → HttpResponse

-- A map with numbers as keys, as the list of its entries.
unfoldable pub lookup_method {ℓ} : {V : Type ℓ} → ℕ → List (ℕ × V) → Option V
lookup_method m [] = none
lookup_method m ((k, v) ∷ rest) = let r = lookup_method m rest in if k == m then some v else r

unfoldable pub assign_method {ℓ} : {V : Type ℓ} → ℕ → V → List (ℕ × V) → List (ℕ × V)
assign_method m v [] = (m, v) ∷ []
assign_method m v ((k, w) ∷ rest) =
    let r = assign_method m v rest in if k == m then (k, v) ∷ rest else (k, w) ∷ r

-- `std::regex`: what the groups match, where the path has a match; the pattern that stands for the
-- placeholders of a path, and their names, of which there are none if one is not well formed.
pub record Regex : Type 0 where
  pub search : (pattern path : Bytes) → Option (List Bytes)
  pub replace_placeholders : Bytes → Bytes
  pub placeholders : Bytes → List Bytes

pub record HttpServer : Type 0 where
  pub handlers : List (Bytes × List (ℕ × Handler))
  pub default_handlers : List (ℕ × Handler)
  pub restful_handlers : List (Bytes × List (ℕ × (List Bytes × Handler)))
  pub read_buffer_size : ℕ

abbrev pub methods_of {ℓ} : {V : Type ℓ} → Option (List (ℕ × V)) → List (ℕ × V)
methods_of none = []
methods_of (some ms) = ms

unfoldable pub register_handler : HttpServer → (path : Bytes) → (method : ℕ) → Handler → HttpServer
register_handler s path method func = record s {
  handlers =
      assign path (assign_method method func (methods_of (lookup path s.handlers))) s.handlers;
}

unfoldable pub register_default_handler : HttpServer → (status : ℕ) → Handler → HttpServer
register_default_handler s status func = record s {
  default_handlers = assign_method status func s.default_handlers;
}

-- `GenerateInitialRESTfulNames`: the braces around each placeholder go; one with nothing between
-- them makes the whole list empty.
unfoldable pub strip_braces : List Bytes → Option (List Bytes)
strip_braces [] = some []
strip_braces (p ∷ ps) =
    let rest = strip_braces ps in
    let inner = inside p in
    elim inner [
      | none ↦ none
      | some name ↦ elim rest [ none ↦ none | some names ↦ some (name ∷ names) ]
    ]
  where
    init_ : ℕ → Bytes → Bytes
    init_ c [] = []
    init_ c (d ∷ ds) = c ∷ init_ d ds

    last_ : ℕ → Bytes → ℕ
    last_ c [] = c
    last_ c (d ∷ ds) = last_ d ds

    inside : Bytes → Option Bytes
    inside [] = none
    inside (a ∷ []) = none
    inside (a ∷ b ∷ []) = none
    inside (a ∷ b ∷ c ∷ cs) =
        if a == 123 && last_ c cs == 125 then some (init_ b (c ∷ cs)) else none

abbrev pub no_names : Option (List Bytes) → List Bytes
no_names none = []
no_names (some names) = names

unfoldable pub register_restful_handler :
    Regex → HttpServer → (path : Bytes) → (method : ℕ) → Handler → HttpServer
register_restful_handler R s path method func =
    let names = no_names (strip_braces (R.placeholders path)) in
    let pattern = R.replace_placeholders path in
    if empty names then s else record s {
      restful_handlers =
          assign pattern
            (assign_method method (names, func) (methods_of (lookup pattern s.restful_handlers)))
            s.restful_handlers;
    }

abbrev pub bad_request : ℕ
bad_request = 400

abbrev pub not_found : ℕ
not_found = 404

abbrev pub answer_with : (status : ℕ) → Bytes → Handler
answer_with status body request response = record response {
  status = status;
  parts = record response.parts { body = body };
}

unfoldable pub new_server : (read_buffer_size : ℕ) → HttpServer
unfolding register_default_handler assign_method
new_server size =
    register_default_handler
      (register_default_handler
        (record {
          handlers = [];
          default_handlers = [];
          restful_handlers = [];
          read_buffer_size = size;
        })
        bad_request (answer_with bad_request (bytes "400 Bad request")))
      not_found (answer_with not_found (bytes "404 Not found"))

-- Whether the connection is closed after this request.
unfoldable pub is_need_return : HttpRequest → Bool
is_need_return r =
    let connection = lookup (bytes "Connection") r.parts.headers in
    if ltb (r.http_major_version * 10 + r.http_minor_version) 11
    then elim connection [ none ↦ true | some v ↦ not (same v (bytes "Keep-alive")) ]
    else elim connection [ none ↦ false | some v ↦ same v (bytes "close") ]

-- Where a request goes.
pub data Route : Type 0 where
  exact : Handler → Route
  restful : (names : List Bytes) → Handler → (matches : List Bytes) → Route
  unknown : Route

-- Over `RESTful_handlers_`.
unfoldable pub find_restful :
    Regex → List (Bytes × List (ℕ × (List Bytes × Handler))) → (path : Bytes) → (method : ℕ) → Route
find_restful R [] path method = unknown
find_restful R ((pattern, methods) ∷ rest) path method =
    let later = find_restful R rest path method in
    elim (lookup_method method methods) [
      | none ↦ later
      | some h ↦ elim (R.search pattern path) [
        | none ↦ later
        | some matches ↦ restful h.0 h.1 matches
      ]
    ]

unfoldable pub route : Regex → HttpServer → (path : Bytes) → (method : ℕ) → Route
route R s path method = elim (lookup_method method (methods_of (lookup path s.handlers))) [
  | some h ↦ exact h
  | none ↦ find_restful R s.restful_handlers path method
]

-- `insert` of each match under its name; it leaves a name that is there. A match beyond the names is
-- read out of bounds.
unfoldable pub insert_params : (names matches : List Bytes) → Entries → Outcome Entries
insert_params names [] m = ok m
insert_params [] (v ∷ vs) m = undefined
insert_params (name ∷ names) (v ∷ vs) m = insert_params names vs (insert_new (lookup name m))
  where
    insert_new : Option Bytes → Entries
    insert_new none = assign name v m
    insert_new (some w) = m

abbrev pub with_versions : HttpRequest → HttpResponse → HttpResponse
with_versions r response = record response {
  http_major_version = r.http_major_version;
  http_minor_version = r.http_minor_version;
}

-- `default_handlers_[status]`; an empty function cannot be called.
unfoldable pub default_response : HttpServer → (status : ℕ) → HttpRequest → Outcome HttpResponse
default_response s status r = elim (lookup_method status s.default_handlers) [
  | none ↦ throws Exception.bad_function_call
  | some h ↦ ok (h r new_response)
]

-- The handler's answer to a request that was parsed.
unfoldable pub respond : Regex → HttpServer → HttpRequest → Outcome HttpResponse
respond R s r = elim (route R s r.path r.method) [
  | exact h ↦ ok (h r (with_versions r new_response))
  | restful names h matches ↦ insert_params names matches r.restful_params >>= λ params.
      ok (h (record r { restful_params = params }) (with_versions r new_response))
  | unknown ↦ default_response s not_found r
]
