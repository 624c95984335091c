-- ===== src/Http/Message.antt =====
-- `HttpRequest` and `HttpResponse` of include/arc/http/http_parser.h, and the callbacks at the end of
-- src/http/http_parser.cc through which the parser fills them.
use libarc.Prelude.{
  ℕ, Bool, true, false, Option, none, some, List, [], ◌∷◌, ◌++◌, if◌then◌else◌, is_some, Outcome,
  ok, undefined, ◌>>=◌,
}
use libarc.Prelude.Bytes.{Bytes}
use libarc.Prelude.Assoc.{lookup, assign}
use libarc.Http.Query.{Curl, Entries, parse_query}

-- The fields that both structs have and the callbacks fill.
pub record Parts : Type 0 where
  pub headers : Entries
  pub body : Bytes
  pub is_complete : Bool
  pub temporary_store : Bytes

pub record HttpRequest : Type 0 where
  pub parts : Parts
  pub method_string : Bytes
  pub method : ℕ
  pub path : Bytes
  pub http_major_version : ℕ
  pub http_minor_version : ℕ
  pub queries : Entries
  pub restful_params : Entries

pub record HttpResponse : Type 0 where
  pub parts : Parts
  pub http_major_version : ℕ
  pub http_minor_version : ℕ
  pub status : ℕ
  pub status_string : Bytes
  pub is_valid : Bool

abbrev pub no_parts : Parts
no_parts = record { headers = []; body = []; is_complete = false; temporary_store = [] }

-- HTTP_GET and HTTP_STATUS_OK
abbrev pub http_get : ℕ
http_get = 1

abbrev pub http_status_ok : ℕ
http_status_ok = 200

abbrev pub new_request : HttpRequest
new_request = record {
  parts = no_parts;
  method_string = [];
  method = http_get;
  path = [];
  http_major_version = 1;
  http_minor_version = 1;
  queries = [];
  restful_params = [];
}

abbrev pub new_response : HttpResponse
new_response = record {
  parts = no_parts;
  http_major_version = 1;
  http_minor_version = 1;
  status = http_status_ok;
  status_string = [];
  is_valid = true;
}

-- What the parser calls back with.
pub data Event : Type 0 where
  on_url on_status on_header_field on_header_value on_body : Bytes → Event
  on_message_complete : Event

-- `OnHeaderField`, `OnHeaderValue`, `OnBody` and `OnMessageComplete`. `map[std::move(key)]` moves the
-- key only into a new entry; a string that has been moved is empty, as the library leaves it.
unfoldable pub handle_part : Parts → Event → Outcome Parts
handle_part p (on_url at) = ok p
handle_part p (on_status at) = ok p
handle_part p (on_header_field at) = ok (record p { temporary_store = at })
handle_part p (on_header_value at) = elim p.temporary_store [
  | [] ↦ undefined
  | c ∷ cs ↦ ok (record p {
    headers = assign (c ∷ cs) at p.headers;
    temporary_store = if is_some (lookup (c ∷ cs) p.headers) then c ∷ cs else [];
  })
]
handle_part p (on_body at) = ok (record p { body = p.body ++ at })
handle_part p on_message_complete = ok (record p { is_complete = true })

-- Over the events of one call of the parser.
unfoldable pub handle_parts : Parts → List Event → Outcome Parts
handle_parts p [] = ok p
handle_parts p (e ∷ es) = handle_part p e >>= λ p'. handle_parts p' es

-- The copied HTTP parser: its state, with what the code reads of it, and the parts of a URL.
pub record HttpLibrary : Type 1 where
  pub Parser : Type 0
  pub init_request : Parser
  pub init_response : Parser
  -- The parser after the text, its callbacks, and how much of the text it has read.
  pub execute : Parser → Bytes → Parser × List Event × ℕ
  pub is_upgrade : Parser → Bool
  pub http_errno : Parser → ℕ
  pub method : Parser → ℕ
  pub http_major : Parser → ℕ
  pub http_minor : Parser → ℕ
  pub status_code : Parser → ℕ
  pub method_str : ℕ → Bytes
  pub status_str : ℕ → Bytes
  -- The path and the query, where the URL has them.
  pub url_path : Bytes → Option Bytes
  pub url_query : Bytes → Option Bytes

module _ (E : Curl) (L : HttpLibrary) where
  -- `OnUrl`: the path is set before the query is read.
  unfoldable pub handle_url : HttpRequest → Bytes → HttpRequest
  handle_url r at = record r {
    path = elim (L.url_path at) [ none ↦ r.path | some path ↦ path ];
    queries = elim (L.url_query at) [
      | none ↦ r.queries
      | some query ↦ parse_query E query r.queries
    ];
  }

  unfoldable pub handle_request_event : HttpRequest → Event → Outcome HttpRequest
  handle_request_event r e =
      let other = handle_part r.parts e >>= λ p. ok (record r { parts = p }) in
      elim e [ on_url at ↦ ok (handle_url r at) | _ ↦ other ]

  unfoldable pub handle_request_events : HttpRequest → List Event → Outcome HttpRequest
  handle_request_events r [] = ok r
  handle_request_events r (e ∷ es) = handle_request_event r e >>= λ r'. handle_request_events r' es
