-- ===== src/Tests/Blocks.antt =====
-- One request in an empty memory: a POST in two pieces, and one that is turned away.
use webstore.Base.{◌≡◌, refl, none, some, true, arith}
use webstore.Base.Bytes.{text, bytes_eq}
use webstore.Base.Decimal.{atol}
use webstore.Redis.Mem.{mem_redis}
use webstore.Memory.{Ptr, Heap, IsHeap, Ends}
use webstore.Searest.{Sri, searest_new}
use webstore.Searest.Upload.{
  gather, gather_all, start_request, with_headers, with_method, length_of, fresh, method_of,
}
use webstore.Searest.Blocks.{ReqBlock, request}
use webstore.Searest.Blocks.Request.{MakesPage, verdict, last_verdict, request_frees}
use webstore.Node.Pages.{get_memory, post_memory, pages-MakesPage}
use webstore.Tests.Requests.{announcing, halves}

abbrev no_memory : Heap ReqBlock
no_memory = record { next = 1; at = λ a. none }

no_memory-IsHeap : IsHeap no_memory
no_memory-IsHeap = record { next_pos = omega arith; fresh = λ a le. refl }

abbrev small : Sri mem_redis
small = searest_new 1 20 100

pages-MakesPage_example :
    MakesPage true (get_memory true (some (text "k")) none)
    × MakesPage true (post_memory true true true (some (text "k")) (text "HelloWorld") 503)
pages-MakesPage_example =
    pages-MakesPage true true true (some (text "k")) none (text "HelloWorld") 503

request_frees_example :
    Ends
      (request small announcing
        (text "/u")
        (text "POST")
        halves
        1
        (post_memory true true true (some (text "k")) (text "HelloWorld") 0)
        no_memory)
      (λ z g. (z ≡ 1) × ((a : Ptr) → g.at a ≡ none))
unfolding text verdict last_verdict gather_all gather start_request with_headers with_method
    length_of fresh method_of searest_new atol bytes_eq
request_frees_example =
    request_frees no_memory small announcing (text "/u") (text "POST") halves 1 true
      (post_memory true true true (some (text "k")) (text "HelloWorld") 0) no_memory-IsHeap
      (pages-MakesPage true true true (some (text "k")) none (text "HelloWorld") 0).1
