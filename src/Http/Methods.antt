-- ===== src/Http/Methods.antt =====
-- The names of the methods in src/http/http_parser.c.
use backend_in_c.Prelude.{◌≡◌, refl, some, str_eq}
use backend_in_c.Http.{
  Method, http_get, http_post, http_put, http_delete, http_head, http_options, http_patch,
  http_unknown, method_to_string, method_from_string,
}

-- Every method is read back from its name, HTTP_UNKNOWN included.
pub method_from_string-to_string : (m : Method) → method_from_string (some (method_to_string m)) ≡ m
unfolding method_from_string method_to_string str_eq
method_from_string-to_string http_get = refl
method_from_string-to_string http_post = refl
method_from_string-to_string http_put = refl
method_from_string-to_string http_delete = refl
method_from_string-to_string http_head = refl
method_from_string-to_string http_options = refl
method_from_string-to_string http_patch = refl
method_from_string-to_string http_unknown = refl
