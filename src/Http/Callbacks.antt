-- ===== src/Http/Callbacks.antt =====
-- What the callbacks make of a message.
use mathlib.Core.List.{append_assoc, append-nil}
use libarc.Prelude.{
  if◌then◌else◌, is_some, none, ◌≡◌, ◌≢◌, refl, ◌∙◌, true, List, [], ◌∷◌, ◌++◌, map, ok, undefined,
}
use libarc.Prelude.Bytes.{Bytes}
use libarc.Prelude.Assoc.{lookup, assign}
use libarc.Http.Query.{Entries}
use libarc.Http.Message.{
  Parts, Event, on_header_field, on_header_value, on_body, on_message_complete, handle_part,
  handle_parts,
}

-- The callbacks of a message whose headers and body come in these pieces, each field and each value
-- in one.
abbrev pub header_events : Entries → List Event
header_events [] = []
header_events ((key, value) ∷ headers) =
    on_header_field key ∷ on_header_value value ∷ header_events headers

abbrev pub message_events : Entries → List Bytes → List Event
message_events headers pieces =
    header_events headers ++ (map on_body pieces ++ on_message_complete ∷ [])

abbrev pub NamedHeaders : Entries → Type 0
NamedHeaders [] = Unit
NamedHeaders ((key, value) ∷ headers) = (key ≢ []) × NamedHeaders headers

abbrev pub assign_all : Entries → Entries → Entries
assign_all [] m = m
assign_all ((key, value) ∷ headers) m = assign_all headers (assign key value m)

abbrev pub concat : List Bytes → Bytes
concat [] = []
concat (s ∷ ss) = s ++ concat ss

handle_body :
    (pieces : List Bytes) (p : Parts)
    → handle_parts p (map on_body pieces ++ on_message_complete ∷ [])
      ≡ ok (record p { body = p.body ++ concat pieces; is_complete = true })
unfolding handle_parts handle_part
handle_body [] p = rw append-nil refl
handle_body (s ∷ pieces) p =
    handle_body pieces (record p { body = p.body ++ s }) ∙ rw append_assoc refl

one_header :
    (p : Parts) (key value : Bytes) (es : List Event)
    → key ≢ []
    → handle_parts p (on_header_field key ∷ on_header_value value ∷ es)
      ≡ handle_parts
          (record p {
            headers = assign key value p.headers;
            temporary_store = if is_some (lookup key p.headers) then key else [];
          })
          es
unfolding handle_part handle_parts
one_header p [] value es ne = absurd (ne refl)
one_header p (c ∷ cs) value es ne = refl

-- If the parser calls back once for each field, with a name that is not empty, and once for each
-- value, then the headers are those fields with their values, a later one of the same name in place
-- of an earlier one, the body is the pieces in order, and the message is complete; all that depends
-- on whether a name came twice is what is left in `temporary_store`.
pub handle_parts-message_events :
    (headers : Entries) (pieces : List Bytes) (p : Parts)
    → NamedHeaders headers
    → (store : Bytes) × (handle_parts p (message_events headers pieces)
        ≡ ok (record {
          headers = assign_all headers p.headers;
          body = p.body ++ concat pieces;
          is_complete = true;
          temporary_store = store;
        }))
handle_parts-message_events [] pieces p n = (p.temporary_store, handle_body pieces p)
handle_parts-message_events ((key, value) ∷ headers) pieces p (ne, n) =
    let p' : Parts = record p {
      headers = assign key value p.headers;
      temporary_store = if is_some (lookup key p.headers) then key else [];
    } in
    let (store, e) = handle_parts-message_events headers pieces p' n in
    (store, one_header p key value _ ne ∙ e)

-- A value of a new field that comes in two pieces, or one that follows no field, meets the assertion
-- that a field is there.
header_value_pieces :
    (p : Parts) (key first second : Bytes)
    → lookup key p.headers ≡ none
    → handle_parts p (on_header_field key ∷ on_header_value first ∷ on_header_value second ∷ [])
      ≡ undefined
unfolding handle_parts handle_part
header_value_pieces p [] first second new = refl
header_value_pieces p (c ∷ cs) first second new = rw new refl
