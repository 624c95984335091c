-- ===== src/Http/Query/RoundTrip.antt =====
-- What is printed is read back.
use mathlib.Core.List.{append-nil, append_assoc}
use libarc.Prelude.{
  Bool-cases, ℕ, zero, suc, ◌+◌, ◌-◌, ◌<◌, ◌≤◌, ◌≡◌, ◌≢◌, refl, sym, ap, ◌∙◌, inl, inr, true, none,
  some, [], ◌∷◌, ◌++◌, leb, length, length-append, take, drop, arith,
}
use libarc.Prelude.Bytes.{
  Bytes, same, same_iff, drop_add, find, find_from, substr, Lacks, find-Lacks, find-none,
  take-length-append, drop-suc-append, take-all, Lacks-append,
}
use libarc.Prelude.Assoc.{assign, lookup, assign-new, lookup-snoc}
use libarc.Http.Query.{
  equal_sign, ampersand, Curl, Entries, is_pair, parse_one_pair, parse_loop, parse_query,
  print_pair, print_queries,
}

-- Percent-encoding: what is escaped can be read back, and has none of the two separators.
pub record CurlLaws (E : Curl) : Type 0 where
  pub unescape-escape : (s : Bytes) → E.unescape (E.escape s) ≡ s
  pub unescape-nil : E.unescape [] ≡ []
  pub no_equal_sign : (s : Bytes) → Lacks equal_sign (E.escape s)
  pub no_ampersand : (s : Bytes) → Lacks ampersand (E.escape s)

-- Keys and values that are not empty, and no key twice.
abbrev pub IsReadable : Entries → Type 0
IsReadable [] = Unit
IsReadable ((key, value) ∷ es) = (key ≢ []) × (value ≢ []) × (lookup key es ≡ none) × IsReadable es

-- None of the keys is in the map yet.
abbrev IsFresh : Entries → Entries → Type 0
IsFresh m [] = Unit
IsFresh m ((key, value) ∷ es) = (lookup key m ≡ none) × IsFresh m es

length-pos : (s : Bytes) → s ≢ [] → 0 < length s
length-pos [] h = absurd (h refl)
length-pos (c ∷ s) h = omega arith

module _ {E : Curl} (laws : CurlLaws E) where
  open laws use {unescape-escape, unescape-nil, no_equal_sign, no_ampersand}

  escape-ne-nil : (s : Bytes) → s ≢ [] → E.escape s ≢ []
  escape-ne-nil s ne e = ne (sym (unescape-escape s) ∙ ap E.unescape e ∙ unescape-nil)

  parse_one_pair-print_pair :
      (key value : Bytes) (m : Entries)
      → key ≢ []
      → value ≢ []
      → parse_one_pair E (print_pair E (key, value)) m ≡ assign key value m
  unfolding parse_one_pair
  parse_one_pair-print_pair key value m nk nv =
      let k = E.escape key in
      let v = E.escape value in
      let at = find-Lacks equal_sign k v (no_equal_sign key) in
      let size = length-append k (equal_sign ∷ v) in
      let some_k = length-pos k (escape-ne-nil key nk) in
      let some_v = length-pos v (escape-ne-nil value nv) in
      let fits : is_pair E (length (k ++ equal_sign ∷ v)) (length k) ≡ true = ground arith in
      let left : substr (k ++ equal_sign ∷ v) 0 (length k) ≡ k = take-length-append k _ in
      let right : substr (k ++ equal_sign ∷ v) (length k + 1)
            (length (k ++ equal_sign ∷ v) - length k - 1)
          ≡ v =
        let past : length k + 1 ≡ suc (length k) = omega arith in
        rw (past, drop-suc-append k equal_sign v) (take-all _ v (omega arith)) in
      ground (arith, unescape-escape key, unescape-escape value)

  print_pair-Lacks : (e : Bytes × Bytes) → Lacks ampersand (print_pair E e)
  print_pair-Lacks (key, value) =
      Lacks-append ampersand (E.escape key) _ (no_ampersand key) (omega arith, no_ampersand value)

  IsFresh-snoc :
      (es m : Entries) (key value : Bytes)
      → IsFresh m es
      → lookup key es ≡ none
      → IsFresh (m ++ (key, value) ∷ []) es
  unfolding lookup
  IsFresh-snoc [] m key value f h = tt
  IsFresh-snoc ((k, v) ∷ es) m key value (f, fs) h = elim (Bool-cases (same k key)) [
    | inl hit ↦ absurd (ground arith)
    | inr miss ↦ (
      lookup-snoc k key value m (λ e. absurd (ground (arith, same_iff k key))) f,
      IsFresh-snoc es m key value fs (ground arith),
    )
  ]

  -- The last pair of the text.
  loop_last :
      (fuel : ℕ) (text : Bytes) (start : ℕ) (m : Entries) (e : Bytes × Bytes)
      → drop start text ≡ print_pair E e
      → start + length (print_pair E e) ≡ length text
      → parse_loop E (suc fuel) text start m ≡ parse_one_pair E (print_pair E e) m
  unfolding parse_loop find_from
  loop_last fuel text start m e tail size =
      let absent = find-none ampersand (print_pair E e) (print_pair-Lacks e) in
      let all : take (length text - start) (print_pair E e) ≡ print_pair E e =
        take-all _ (print_pair E e) (omega arith) in
      let from : find_from ampersand start text ≡ none = rw (tail, absent, find_from) refl in
      rw (parse_loop, from) (rw (tail, all) refl)

  -- Any other.
  loop_next :
      (fuel : ℕ) (text : Bytes) (start : ℕ) (m : Entries) (e : Bytes × Bytes) (rest : Bytes)
      → drop start text ≡ print_pair E e ++ ampersand ∷ rest
      → start + length (print_pair E e ++ ampersand ∷ rest) ≡ length text
      → parse_loop E (suc fuel) text start m
        ≡ parse_loop E fuel text
            (start + length (print_pair E e) + 1)
            (parse_one_pair E (print_pair E e) m)
  unfolding parse_loop find_from
  loop_next fuel text start m e rest tail size =
      let part = print_pair E e in
      let at = find-Lacks ampersand part rest (print_pair-Lacks e) in
      let l = length-append part (ampersand ∷ rest) in
      let count : start + length part - start ≡ length part = omega arith in
      let first = take-length-append part (ampersand ∷ rest) in
      let inside : leb (start + length part + 1) (length text) ≡ true = ground arith in
      let from : find_from ampersand start text ≡ some (start + length part) =
        rw (tail, at, find_from) refl in
      rw (parse_loop, from) (rw (inside, count) (rw (tail, first) refl))

  loop-print :
      (es : Entries) (n fuel : ℕ) (text : Bytes) (start : ℕ) (m : Entries) (key value : Bytes)
      → drop start text ≡ print_pair E (key, value) ++ print_queries E (suc n) es
      → start + length (print_pair E (key, value) ++ print_queries E (suc n) es) ≡ length text
      → length es < fuel
      → IsReadable ((key, value) ∷ es)
      → IsFresh m ((key, value) ∷ es)
      → parse_loop E fuel text start m ≡ m ++ (key, value) ∷ es
  unfolding print_queries
  loop-print es n zero text start m key value tail size enough r f = absurd (omega arith)
  loop-print [] n (suc fuel) text start m key value tail size enough (nk, nv, _, _) (f, _) =
      loop_last fuel text start m (key, value) (tail ∙ append-nil _) (rw append-nil at size)
      ∙ parse_one_pair-print_pair key value m nk nv
      ∙ assign-new key value m f
  loop-print ((k, v) ∷ es) n (suc fuel) text start m key value tail size enough (nk, nv, once, r)
        (f, fs) =
      let part = print_pair E (key, value) in
      let rest = print_pair E (k, v) ++ print_queries E (suc (suc n)) es in
      let l = length-append part (ampersand ∷ rest) in
      let added = parse_one_pair-print_pair key value m nk nv ∙ assign-new key value m f in
      let later : drop (start + length part + 1) text ≡ rest =
        ap (λ (i : ℕ). drop i text) (omega arith)
        ∙ drop_add start (suc (length part)) text
        ∙ ap (drop (suc (length part))) tail
        ∙ drop-suc-append part ampersand rest in
      loop_next fuel text start m (key, value) rest tail size
      ∙ ap (parse_loop E fuel text (start + length part + 1)) added
      ∙ loop-print es (suc n) fuel text (start + length part + 1) (m ++ (key, value) ∷ []) k v later
          (omega arith) (omega arith) r (IsFresh-snoc ((k, v) ∷ es) m key value fs once)
      ∙ append_assoc m ((key, value) ∷ []) ((k, v) ∷ es)

  all-IsFresh : (es : Entries) → IsFresh [] es
  unfolding lookup
  all-IsFresh [] = tt
  all-IsFresh ((k, v) ∷ es) = (refl, all-IsFresh es)

  length-le-print : (es : Entries) (n : ℕ) → length es ≤ length (print_queries E n es)
  unfolding print_queries
  length-le-print [] n = omega arith
  length-le-print (e ∷ es) zero =
      omega (arith, length-le-print es 1, length-append (print_pair E e) (print_queries E 1 es))
  length-le-print (e ∷ es) (suc n) = omega (
    arith,
    length-le-print es (suc (suc n)),
    length-append (print_pair E e) (print_queries E (suc (suc n)) es),
  )

  -- Queries whose keys and values are not empty, with no key twice, that are printed for a request
  -- and, without the leading `?`, parsed into an empty map, are read back as they were.
  pub parse_query-print_queries :
      (es : Entries) → IsReadable es → parse_query E (drop 1 (print_queries E 0 es)) [] ≡ es
  unfolding parse_query print_queries parse_loop find_from find parse_one_pair lookup
  parse_query-print_queries [] r = refl
  parse_query-print_queries ((key, value) ∷ es) r =
      loop-print es 0 _ _ 0 [] key value refl (omega arith)
        (let few = length-le-print es 1 in
          let l = length-append (print_pair E (key, value)) (print_queries E 1 es) in omega arith)
        r (refl, all-IsFresh es)
