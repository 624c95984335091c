-- ===== src/Tests/ServerRuns.antt =====
-- A server with one handler, and two requests on one connection.
use libarc.Prelude.{◌≡◌, refl, true, false, none, [], ◌∷◌, ok}
use libarc.Prelude.Bytes.{Bytes, bytes, same}
use libarc.Prelude.Assoc.{lookup, assign}
use libarc.Http.Message.{
  HttpRequest, new_request, new_response, handle_part, handle_request_events, handle_request_event,
  handle_url,
}
use libarc.Http.Parser.{parse_once}
use libarc.Http.Print.{print_response}
use libarc.Http.Server.{
  Regex, HttpServer, Handler, new_server, register_handler, route, exact, respond, is_need_return,
  with_versions, lookup_method,
}
use libarc.Http.Server.Connection.{serve}
use libarc.Http.Server.Pipeline.{serve_pipeline, IsAnswered}
use libarc.Http.Server.Routing.{route-register_handler}
use libarc.Tests.HttpRuns.{lettered, at_once}

abbrev no_regex : Regex
no_regex = record {
  search = λ pattern path. none;
  replace_placeholders = λ path. path;
  placeholders = λ path. [];
}

abbrev greet : Handler
greet request response = record response { parts = record response.parts { body = bytes "hi" } }

abbrev greeter : HttpServer
greeter = register_handler (new_server 4) (bytes "/") 1 greet

route-register_handler_example :
    route no_regex (register_handler (new_server 4) (bytes "/") 1 greet) (bytes "/") 1 ≡ exact greet
unfolding same
route-register_handler_example =
    route-register_handler no_regex (new_server 4) (bytes "/") (bytes "/") 1 1 greet

abbrev asked : Bytes → HttpRequest
asked text = record new_request {
  parts = record new_request.parts { is_complete = true };
  path = text;
  method_string = bytes "GET";
}

-- One request.
slash-IsAnswered :
    IsAnswered lettered at_once no_regex greeter
      (bytes "/")
      (print_response lettered at_once
        (greet (asked (bytes "/")) (with_versions (asked (bytes "/")) new_response))).0
unfolding parse_once respond is_need_return handle_request_events handle_request_event handle_part
    handle_url lookup route lookup_method register_handler assign new_server same
slash-IsAnswered = record {
  received = refl;
  parser = 0;
  request = asked (bytes "/");
  response = greet (asked (bytes "/")) (with_versions (asked (bytes "/")) new_response);
  parsed = refl;
  complete = refl;
  stays = refl;
  responded = refl;
  printed = refl;
}

abbrev greeting : Bytes
greeting =
    (print_response lettered at_once
      (greet (asked (bytes "/")) (with_versions (asked (bytes "/")) new_response))).0

serve_pipeline_example :
    serve lettered at_once no_regex greeter (bytes "/" ∷ bytes "/" ∷ []) 0 new_request
    ≡ ok (greeting ∷ greeting ∷ [], false)
serve_pipeline_example =
    serve_pipeline lettered at_once no_regex greeter
      ((bytes "/", greeting) ∷ (bytes "/", greeting) ∷ [])
      (slash-IsAnswered, (slash-IsAnswered, tt))
