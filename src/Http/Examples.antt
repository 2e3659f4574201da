-- ===== src/Http/Examples.antt =====
-- The theorems on HTTP at inputs.
use hueplusplus.Base.{[], ◌++◌, ◌≡◌, refl, codes, Bytes, ok, err, Error}
use hueplusplus.Std.Number.{emit, decimal}
use hueplusplus.Std.Text.{begins_with, index_of}
use hueplusplus.Http.{
  blank_line, c_text, request_text, body_of, send_http_request, send_get_http_body,
}
use hueplusplus.Http.Framing.{request_text-framing, All-IsPlain, not_zero}

methods : Unit {0}
unfolding emit decimal begins_with index_of c_text request_text body_of send_http_request
    send_get_http_body
methods = tt

abbrev response : Bytes
response = codes "HTTP/1.0 200 OK" ++ (blank_line ++ codes "{}")

answered :
    send_http_request (λ message. ok response) (codes "GET") (codes "/api") [] [] ≡ ok (codes "{}")
unfolding methods
answered = refl

no_body :
    send_http_request (λ message. ok (codes "HTTP/1.0 200 OK")) (codes "GET") (codes "/api") [] []
    ≡ err Error.hue_exception
unfolding methods
no_body = refl

request_text-framing_example :
    (c_text (request_text (codes "PUT") (codes "/a") [] (codes "{}"))
      ≡ request_text (codes "PUT") (codes "/a") [] (codes "{}"))
    × (body_of (request_text (codes "PUT") (codes "/a") [] (codes "{}"))
        ≡ ok (codes "{}" ++ blank_line))
request_text-framing_example =
    request_text-framing (codes "PUT") (codes "/a") [] (codes "}") b'{'
      (All-IsPlain (codes "PUT") refl) (All-IsPlain (codes "/a") refl) tt
      (not_zero (codes "{}") (All-IsPlain (codes "{}") refl))
