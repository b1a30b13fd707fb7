-- ===== src/Asio/Reply/StockPages.antt =====
-- The stock pages and the status lines of the replies.
use boost.Prelude.{◌≡◌, ◌≢◌, refl, ◌++◌, Bytes, codes}
use boost.Asio.Reply.{
  StatusType, ok, created, accepted, no_content, multiple_choices, moved_permanently,
  moved_temporarily, not_modified, bad_request, unauthorized, forbidden, not_found,
  internal_server_error, not_implemented, bad_gateway, service_unavailable, to_buffer, to_string,
}

-- The status line that has this code and this phrase, and the page.
abbrev pub status_line : Bytes → Bytes → Bytes
status_line number phrase = codes "HTTP/1.0 " ++ (number ++ (codes " " ++ (phrase ++ codes "\r\n")))

abbrev pub page : Bytes → Bytes → Bytes
page number phrase =
    codes "<html><head><title>"
    ++ (phrase
        ++ (codes "</title></head><body><h1>"
            ++ (number ++ (codes " " ++ (phrase ++ codes "</h1></body></html>")))))

-- For every status but ok and no_content, the status line and the stock page have the same code and
-- the same phrase.
pub stock_page :
    (status : StatusType)
    → status ≢ ok
    → status ≢ no_content
    → (number : Bytes) × (phrase : Bytes) × (to_buffer status ≡ status_line number phrase)
      × (to_string status ≡ page number phrase)
unfolding to_buffer to_string
stock_page ok h g = absurd (h refl)
stock_page created h g = (codes "201", codes "Created", refl, refl)
stock_page accepted h g = (codes "202", codes "Accepted", refl, refl)
stock_page no_content h g = absurd (g refl)
stock_page multiple_choices h g = (codes "300", codes "Multiple Choices", refl, refl)
stock_page moved_permanently h g = (codes "301", codes "Moved Permanently", refl, refl)
stock_page moved_temporarily h g = (codes "302", codes "Moved Temporarily", refl, refl)
stock_page not_modified h g = (codes "304", codes "Not Modified", refl, refl)
stock_page bad_request h g = (codes "400", codes "Bad Request", refl, refl)
stock_page unauthorized h g = (codes "401", codes "Unauthorized", refl, refl)
stock_page forbidden h g = (codes "403", codes "Forbidden", refl, refl)
stock_page not_found h g = (codes "404", codes "Not Found", refl, refl)
stock_page internal_server_error h g = (codes "500", codes "Internal Server Error", refl, refl)
stock_page not_implemented h g = (codes "501", codes "Not Implemented", refl, refl)
stock_page bad_gateway h g = (codes "502", codes "Bad Gateway", refl, refl)
stock_page service_unavailable h g = (codes "503", codes "Service Unavailable", refl, refl)
