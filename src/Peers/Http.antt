-- ===== src/Peers/Http.antt =====
-- tools/exe-harness/net-builders.js, lines 442-451: the response of the simulated HTTP server.
use sprinter_rtl8019a.Base.{
  ℕ, Bool, false, not, ◌&&◌, ◌||◌, Option, List, [], ◌∷◌, ◌++◌, map, ◌==◌, if◌then◌else◌,
  or_default, or_nonzero, length, equal, codes, crlf, decimal, lower,
}

-- The part of `responders.tcp` that the response is built from. No `status_text` stands for an empty
-- one as well, `body` is absent or its bytes, and the headers are in the order of the object's keys.
pub record HttpOptions : Type 0 where
  pub status : Option ℕ
  pub status_text : Option (List ℕ)
  pub body : Option (List ℕ)
  pub omit_content_length : Bool
  pub headers : List (List ℕ × List ℕ)

pub status_text_of : ℕ → List ℕ
status_text_of status =
    if status == 200
    then codes "OK"
    else if status == 206
    then codes "Partial Content"
    else if status == 301
    then codes "Moved Permanently"
    else if status == 404
    then codes "Not Found"
    else if status == 500
    then codes "Internal Server Error"
    else codes "Error"

pub has_content_length : List (List ℕ × List ℕ) → Bool
has_content_length [] = false
has_content_length (h ∷ hs) =
    equal (map lower h.0) (codes "content-length") || has_content_length hs

abbrev pub header_lines : List (List ℕ × List ℕ) → List (List ℕ)
header_lines [] = []
header_lines (h ∷ hs) = (h.0 ++ codes ": " ++ h.1) ∷ header_lines hs

unfoldable pub length_line : HttpOptions → List ℕ → List (List ℕ)
length_line o body =
    if not o.omit_content_length && not (has_content_length o.headers)
    then (codes "Content-Length: " ++ decimal (length body)) ∷ []
    else []

-- `lines.join('\r\n')`
abbrev pub join_crlf : List (List ℕ) → List ℕ
join_crlf [] = []
join_crlf (l ∷ []) = l
join_crlf (l ∷ m ∷ ls) = l ++ crlf ++ join_crlf (m ∷ ls)

unfoldable pub response_lines : HttpOptions → List (List ℕ)
response_lines o =
    let status = or_nonzero o.status 200 in
    (codes "HTTP/1.1 "
        ++ decimal status
        ++ codes " "
        ++ or_default o.status_text (status_text_of status))
      ∷ length_line o (or_default o.body [])
    ++ header_lines o.headers

unfoldable pub build_http_response : HttpOptions → List ℕ
build_http_response o = join_crlf (response_lines o) ++ crlf ++ crlf ++ or_default o.body []
