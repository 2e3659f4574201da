-- ===== src/Http.antt =====
-- `BaseHttpHandler` of src/BaseHttpHandler.cpp: the texts of requests, and the bodies of responses. The sockets are a
-- parameter, and so are `parse` and `dump` of the JSON library. What is printed on errors is not modelled.
pub mod Body
pub mod Framing
mod Examples
use hueplusplus.Base.{
  ℕ, ◌+◌, [], ◌∷◌, ◌++◌, ◌==◌, Option, none, some, Bytes, codes, drop, length, if◌then◌else◌,
  Result, ok, err, Error, ◌>>=◌,
}
use hueplusplus.Std.Number.{decimal}
use hueplusplus.Std.Text.{index_of}
use hueplusplus.Json.{JsonLib, or_throw}

-- "\r\n\r\n"
abbrev pub line_end : Bytes
line_end = 13 ∷ 10 ∷ []

abbrev pub blank_line : Bytes
blank_line = 13 ∷ 10 ∷ 13 ∷ 10 ∷ []

-- `std::string(text.c_str())`: the bytes before the first that is zero.
unfoldable pub c_text : Bytes → Bytes
c_text [] = []
c_text (c ∷ text) = let rest = c_text text in if c == 0 then [] else c ∷ rest

-- The entity headers, with what is appended behind them.
abbrev pub with_content_type : Bytes → Bytes → Bytes
with_content_type [] rest = rest
with_content_type (c ∷ type) rest = codes "Content-Type: " ++ ((c ∷ type) ++ (line_end ++ rest))

abbrev pub with_content_length : Bytes → Bytes → Bytes
with_content_length [] rest = rest
with_content_length (c ∷ body) rest =
    codes "Content-Length: " ++ (decimal (length (c ∷ body)) ++ (blank_line ++ rest))

-- The text that `sendHTTPRequest` builds.
unfoldable pub request_text : Bytes → Bytes → Bytes → Bytes → Bytes
request_text method uri content_type body =
    method
    ++ (codes " "
        ++ (uri
            ++ (codes " HTTP/1.0"
                ++ (line_end
                    ++ with_content_type content_type
                        (with_content_length body (body ++ blank_line))))))

-- The body of a response: what stands behind its first blank line.
unfoldable pub body_of : Bytes → Result Bytes
body_of response = elim (index_of blank_line response 0) [
  | none ↦ err Error.hue_exception
  | some start ↦ ok (drop (start + 4) response)
]

-- `send`, with the address and the port in it
module _ (send : Bytes → Result Bytes) where
  -- `sendGetHTTPBody`
  unfoldable pub send_get_http_body : Bytes → Result Bytes
  send_get_http_body message = send message >>= body_of

  -- `sendHTTPRequest`, and with the names of the methods `GETString`, `POSTString`, `PUTString` and `DELETEString`
  unfoldable pub send_http_request : Bytes → Bytes → Bytes → Bytes → Result Bytes
  send_http_request method uri content_type body =
      send_get_http_body (c_text (request_text method uri content_type body))

  module _ (J : JsonLib) (parse : Bytes → Option J.Json) (dump : J.Json → Bytes) where
    -- `GETJson`, `POSTJson`, `PUTJson` and `DELETEJson`
    unfoldable pub send_json : Bytes → Bytes → J.Json → Result J.Json
    send_json method uri body =
        send_http_request method uri (codes "application/json") (dump body) >>= λ text.
        or_throw (parse text)
