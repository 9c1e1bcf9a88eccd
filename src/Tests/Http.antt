-- ===== src/Tests/Http.antt =====
-- The raw HTTP server's headers at concrete bytes.
use rinha_de_backend.Base.{◌%◌, ◌≡◌, refl, ◌∷◌, ◌++◌, some, arith, pos, negsuc, codes}
use rinha_de_backend.Api.RawHttp.{
  Bytes, build_resp, find_content_length, index_header_end, matches_name, to_int, int_mod,
  is_content_length_prefix, skip_spaces, read_digits, at_blank_line, parse_request_line,
  after_space, until_space,
}
use rinha_de_backend.Api.RawHttp.Header.{
  AllDigits, decimal, header_line, find_content_length_value, find_content_length-build_resp,
}
use rinha_de_backend.Api.RawHttp.Boundary.{FirstBlankLine, index_header_end-FirstBlankLine}

abbrev approved : Bytes
approved = codes "{\"approved\":true,\"fraud_score\":0.2}"

find_content_length-build_resp_example :
    (r : Bytes) × (build_resp approved ≡ some r) × (find_content_length r ≡ pos 35)
find_content_length-build_resp_example = find_content_length-build_resp approved (omega arith)

abbrev request : Bytes
request = codes "POST /fraud-score HTTP/1.1\r\nHost: a\r\n"

-- 2 ^ 63, which an int cannot hold
abbrev too_long : Bytes
too_long = codes "223372036854775808"

too_long-AllDigits : AllDigits too_long
too_long-AllDigits = (
  refl,
  (
    refl,
    (
      refl,
      (
        refl,
        (
          refl,
          (
            refl,
            (
              refl,
              (
                refl,
                (refl, (refl, (refl, (refl, (refl, (refl, (refl, (refl, (refl, (refl, tt)))))))))),
              ),
            ),
          ),
        ),
      ),
    ),
  ),
)

find_content_length_value_example :
    find_content_length (request ++ header_line ((57 ∷ too_long) ++ codes "\r\n\r\n"))
    ≡ to_int (decimal (57 ∷ too_long) % int_mod)
unfolding matches_name
find_content_length_value_example =
    find_content_length_value request 57 too_long (codes "\r\n\r\n") refl (refl, too_long-AllDigits)
      refl

negative_length : to_int (decimal (57 ∷ too_long) % int_mod) ≡ negsuc 9223372036854775807
unfolding to_int
negative_length = refl

index_header_end-FirstBlankLine_example :
    FirstBlankLine (codes "GET /ready\r\n\r\n") (index_header_end (codes "GET /ready\r\n\r\n"))
index_header_end-FirstBlankLine_example =
    index_header_end-FirstBlankLine (codes "GET /ready\r\n\r\n")

blank_line_at_ten : index_header_end (codes "GET /ready\r\n\r\n") ≡ some 10
unfolding index_header_end at_blank_line
blank_line_at_ten = refl

-- With no space behind the colon the first digit is taken for it.
no_space : find_content_length (codes "Content-Length:42\r\n\r\n") ≡ pos 2
unfolding find_content_length is_content_length_prefix matches_name skip_spaces read_digits to_int
no_space = refl

request_line :
    parse_request_line 1 (codes "GET /ready HTTP/1.1\r\n\r\n")
    ≡ some (record { path = codes "/ready"; content_len = pos 0 })
unfolding parse_request_line after_space until_space find_content_length is_content_length_prefix
    matches_name skip_spaces read_digits to_int
request_line = refl
