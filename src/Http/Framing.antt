-- ===== src/Http/Framing.antt =====
-- Where a printed message ends.
use libarc.Prelude.{
  ℕ, zero, suc, ◌+◌, ◌-◌, ◌*◌, ◌/◌, ◌%◌, ◌<◌, ◌≡◌, refl, inl, inr, Option, none, some, [], ◌∷◌,
  ◌++◌, ltb, length, Bool-cases, Option-cases, drop, length-append, ◌∙◌, false, arith,
}
use libarc.Prelude.Bytes.{Bytes, same, drop-length-append}
use libarc.Prelude.Assoc.{lookup, lookup-assign_self, lookup-assign}
use libarc.Http.Query.{Curl, Entries}
use libarc.Http.Message.{Parts, HttpResponse, HttpLibrary}
use libarc.Http.Print.{
  digits, to_string, new_line, content_length, print_headers, with_content_length, status_line,
  print_response,
}

-- The number that decimal digits stand for.
unfoldable pub value_from : ℕ → Bytes → ℕ
value_from n [] = n
value_from n (c ∷ cs) = value_from (10 * n + (c - 48)) cs

abbrev pub value : Bytes → ℕ
value s = value_from 0 s

value_from-snoc :
    (n : ℕ) (s : Bytes) (c : ℕ) → value_from n (s ++ c ∷ []) ≡ 10 * value_from n s + (c - 48)
unfolding value_from
value_from-snoc n [] c = refl
value_from-snoc n (x ∷ s) c = value_from-snoc (10 * n + (x - 48)) s c

value-digits : (fuel n : ℕ) → n < fuel → value (digits fuel n) ≡ n
unfolding digits value_from
value-digits zero n h = absurd (omega arith)
value-digits (suc fuel) n h = elim (Bool-cases (ltb n 10)) [
  | inl small ↦ rw small (omega arith)
  | inr large ↦
      let front = value-digits fuel (n / 10) (ground arith) in
      let last = value_from-snoc 0 (digits fuel (n / 10)) (48 + n % 10) in ground arith
]

-- The header of a message with these headers: the one that is there, or else the length of the body.
abbrev pub IsLengthFor : Entries → Bytes → Bytes → Type 0
IsLengthFor old body v =
    ((u : Bytes) → lookup content_length old ≡ some u → v ≡ u)
    × (lookup content_length old ≡ none → value v ≡ length body)

with_content_length-has :
    (p : Parts)
    → (v : Bytes) × (lookup content_length (with_content_length p) ≡ some v)
      × IsLengthFor p.headers p.body v
unfolding with_content_length
with_content_length-has p = go (lookup content_length p.headers) refl
  where
    go :
        (o : Option Bytes)
        → lookup content_length p.headers ≡ o
        → (v : Bytes) × (lookup content_length (with_content_length p) ≡ some v)
          × IsLengthFor p.headers p.body v
    go (some v) there =
        (v, rw (there, with_content_length) there, (λ u e. ground arith, λ none_there. cc))
    go none missing = (
      to_string (length p.body),
      rw (missing, with_content_length)
          (lookup-assign_self content_length (to_string (length p.body)) p.headers),
      (λ u there. cc, λ none_there. value-digits (length p.body + 1) (length p.body) (omega arith)),
    )

with_content_length-again :
    (p : Parts)
    → with_content_length (record p { headers = with_content_length p }) ≡ with_content_length p
unfolding with_content_length
with_content_length-again p =
    let (v, there, _) = with_content_length-has p in rw (there, with_content_length) refl

with_content_length-other :
    (p : Parts) (key : Bytes)
    → same content_length key ≡ false
    → lookup key (with_content_length p) ≡ lookup key p.headers
unfolding with_content_length
with_content_length-other p key other = elim (Option-cases (lookup content_length p.headers)) [
  | inl missing ↦
      rw (missing, with_content_length)
        (lookup-assign content_length key (to_string (length p.body)) p.headers ∙ ground arith)
  | inr (v, there) ↦ rw (there, with_content_length) refl
]

-- The last bytes of a text.
abbrev pub last : ℕ → Bytes → Bytes
last n text = drop (length text - n) text

last-append : (front back : Bytes) (n : ℕ) → n ≡ length back → last n (front ++ back) ≡ back
last-append front back n e =
    let size = length-append front back in
    let all_but : length (front ++ back) - n ≡ length front = omega (arith, size, e) in
    rw all_but (drop-length-append front back)

-- A response that is printed has a `Content-Length`: the one that the handler has set, or else a
-- decimal number that stands for the length of the body, and then a client that reads as many of the
-- last bytes of the text as it says has read the body. All other headers are as the handler has set
-- them; and printing what is left of the response gives the same text.
pub print_response-framed :
    (E : Curl) (L : HttpLibrary) (r : HttpResponse)
    → let headers = (print_response E L r).1.parts.headers in
      ((v : Bytes) × (lookup content_length headers ≡ some v)
        × IsLengthFor r.parts.headers r.parts.body v
        × (lookup content_length r.parts.headers ≡ none
            → last (value v) (print_response E L r).0 ≡ r.parts.body))
      × ((key : Bytes)
          → same content_length key ≡ false
          → lookup key headers ≡ lookup key r.parts.headers)
      × (print_response E L (print_response E L r).1 ≡ print_response E L r)
unfolding print_response
print_response-framed E L r =
    let (v, there, (kept, counted)) = with_content_length-has r.parts in
    let again = with_content_length-again r.parts in
    let head = status_line E L r in
    let headers = print_headers (with_content_length r.parts) in
    let front = head ++ headers ++ new_line in
    (
      (
        v,
        there,
        (kept, counted),
        λ none_there. last-append front r.parts.body (value v) (counted none_there),
      ),
      with_content_length-other r.parts,
      rw again refl,
    )
