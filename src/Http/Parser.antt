-- ===== src/Http/Parser.antt =====
-- `HttpParser` of src/http/http_parser.cc: one call of the parser, and what it says of the text.
use libarc.Prelude.{
  ℕ, zero, suc, Bool, false, ◌==◌, if◌then◌else◌, length, Outcome, ok, undefined, ◌>>=◌,
}
use libarc.Prelude.Int.{ℤ, pos, negsuc}
use libarc.Prelude.Bytes.{Bytes}
use libarc.Http.Query.{Curl}
use libarc.Http.Message.{
  HttpRequest, HttpResponse, HttpLibrary, handle_parts, handle_request_events,
}

abbrev pub minus : ℕ → ℤ
minus zero = pos 0
minus (suc n) = negsuc n

-- 0 if all of the text was read and there was no error, or else a negative code.
abbrev pub verdict : (nparsed size http_errno : ℕ) → ℤ
verdict nparsed size http_errno = if nparsed == size then minus http_errno else negsuc 0

abbrev pub is_success : ℤ → Bool
is_success (pos n) = n == 0
is_success (negsuc n) = false

module _ (E : Curl) (L : HttpLibrary) where
  abbrev pub describe_request : L.Parser → HttpRequest → HttpRequest
  describe_request p r = record r {
    method = L.method p;
    method_string = L.method_str (L.method p);
    http_major_version = L.http_major p;
    http_minor_version = L.http_minor p;
  }

  -- An upgrade is asserted not to be asked for.
  unfoldable pub parse_once : L.Parser → Bytes → HttpRequest → Outcome (ℤ × L.Parser × HttpRequest)
  parse_once parser recv request =
      let (parser', events, nparsed) = L.execute parser recv in
      handle_request_events E L request events >>= λ r.
      if L.is_upgrade parser'
      then undefined
      else (let ret = verdict nparsed (length recv) (L.http_errno parser') in
          ok (ret, parser', if is_success ret then describe_request parser' r else r))

  abbrev pub describe_response : L.Parser → HttpResponse → HttpResponse
  describe_response p r = record r {
    status = L.status_code p;
    status_string = L.status_str (L.status_code p);
    http_major_version = L.http_major p;
    http_minor_version = L.http_minor p;
  }

  unfoldable pub parse_response :
      L.Parser → Bytes → HttpResponse → Outcome (ℤ × L.Parser × HttpResponse)
  parse_response parser recv response =
      let (parser', events, nparsed) = L.execute parser recv in
      handle_parts response.parts events >>= λ p.
      (let ret = verdict nparsed (length recv) (L.http_errno parser') in
        let r : HttpResponse = record response { parts = p } in
        ok (ret, parser', if is_success ret then describe_response parser' r else r))
