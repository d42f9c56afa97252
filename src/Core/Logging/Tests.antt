-- ===== src/Core/Logging/Tests.antt =====
-- A regex crate that knows the two patterns.
use mangle_apis.Base.{◌≡◌, ◌↔◌, ◌≤◌, refl, Bool, true, [], ◌∷◌, ◌++◌, ◌||◌, if◌then◌else◌}
use mangle_apis.Base.Text.{Text, bytes, text_eq}
use mangle_apis.Core.Logging.{
  Record, default_levels, Logs, security, routing_regex_raw, starts_with, non_stderr, dispatch,
}
use mangle_apis.Core.Logging.Laws.{WrittenIf, IsSecurity, IsRouting, starts_with_iff, dispatch_lem}

abbrev is_match : Text → Text → Bool
is_match pattern target =
    if text_eq pattern routing_regex_raw
    then starts_with (bytes "tower_http::trace") target
      || starts_with (bytes "hyper::proto") target
      || starts_with (bytes "mio") target
      || starts_with (bytes "tracing") target
      || starts_with (bytes "routing") target
    else starts_with security target

prefix_regex :
    (target : Text) → (is_match (bytes "^" ++ security) target ≡ true) ↔ IsSecurity target
unfolding text_eq
prefix_regex target = starts_with_iff security target

abbrev nothing : Logs
nothing = record { stderr = []; stderr_file = []; routing_file = []; security_file = [] }

-- The warning of distributed.rs about a stranger, whose target is not the one of the security log.
abbrev stranger : Record
stranger = record {
  level = 2;
  target = bytes "security";
  message = bytes "Got attempted connection";
}

stranger_on_stderr :
    dispatch is_match default_levels stranger nothing
    ≡ record nothing { stderr = stranger ∷ []; stderr_file = stranger ∷ [] }
unfolding dispatch non_stderr starts_with text_eq
stranger_on_stderr = refl

abbrev request : Record
request = record {
  level = 5;
  target = bytes "tower_http::trace::on_request";
  message = bytes "GET";
}

abbrev written : Logs
written = dispatch is_match default_levels stranger nothing

dispatch_example :
    WrittenIf
      ((¬ IsSecurity (bytes "security") × ¬ IsRouting is_match prefix_regex (bytes "security"))
        × (2 ≤ 3))
      stranger
      []
      written.stderr
    × WrittenIf
        ((¬ IsSecurity (bytes "security") × ¬ IsRouting is_match prefix_regex (bytes "security"))
          × (2 ≤ 3))
        stranger
        []
        written.stderr_file
    × WrittenIf
        (IsRouting is_match prefix_regex (bytes "security") × (2 ≤ 3))
        stranger
        []
        written.routing_file
    × WrittenIf (IsSecurity (bytes "security")) stranger [] written.security_file
dispatch_example = dispatch_lem is_match prefix_regex default_levels stranger nothing
