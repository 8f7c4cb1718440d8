-- ===== src/Node/Pages.antt =====
-- The memory that get, do_redis_post and post take and give back (src/webstore_node.c): the token's
-- key, the text of the upload, and the page. hiredis's replies are its own.
use webstore.Base.{ℕ, ◌≡◌, refl, Bool, true, false, Option, none, some, ◌==◌, if◌then◌else◌, not}
use webstore.Base.Bytes.{Bytes, text}
use webstore.Memory.{
  Ptr, null, Heap, Cmd, ◌>>=◌, ◌>>◌, give, write, with_new, alloc, free, alloc-IsHeap, IsHeap, Ends,
  Ends-bind,
}
use webstore.Searest.Blocks.{ReqBlock, chars}
use webstore.Searest.Blocks.Assign.{Brought}
use webstore.Searest.Blocks.Request.{MakesPage}
use webstore.Searest.Blocks.Scratch.{
  alloc-MakesPage, nothing-Brought, scratch-Brought, scratch-MakesPage, then_page,
}

-- strdup(reply->str), if there is a reply and it is a string
unfoldable pub dup_reply : Option (Option Bytes) → Cmd ReqBlock Ptr
dup_reply none = give null
dup_reply (some none) = give null
dup_reply (some (some s)) = alloc (chars s)

-- the page of GET: `page` is what was read, if there was a reply
unfoldable pub page_or : Option (Option Bytes) → Ptr → Cmd ReqBlock Ptr
page_or none page = alloc (chars (text "service unavailable"))
page_or (some got) page = if page == null then alloc (chars (text "not found")) else give page

-- GET from the conversion of the token on: `hash` is what convert_hash finds, `reply` the text of
-- the reply.
unfoldable pub get_page : Option Bytes → Option (Option Bytes) → Cmd ReqBlock Ptr
unfolding dup_reply page_or
get_page none reply = alloc (chars (text "malformed request"))
get_page (some h) reply = do
  page ← (do hash ← alloc (chars h); page ← dup_reply reply; free hash; give page)
  page_or reply page

-- `good` is whether the URL has its length.
unfoldable pub get_memory : Bool → Option Bytes → Option (Option Bytes) → Cmd ReqBlock Ptr
unfolding get_page
get_memory good hash reply =
    if good then get_page hash reply else alloc (chars (text "malformed request"))

-- do_redis_post with the result `err`
unfoldable pub send_memory : Bytes → ℕ → Cmd ReqBlock ℕ
send_memory dataptr err = do datastr ← alloc (chars dataptr); free datastr; give err

-- the page of POST for the result of do_redis_post
unfoldable pub post_message : ℕ → Bytes
post_message z =
    if z == 0
    then text "ok"
    else if z == 304
    then text "object immutable - not modified"
    else if z == 417
    then text "redis reply error"
    else if z == 503
    then text "service unavailable"
    else text "internal server error"

unfoldable pub post_page_of : Option Bytes → Bytes → ℕ → Cmd ReqBlock Ptr
unfolding send_memory post_message
post_page_of none dataptr err = alloc (chars (text "malformed request - invalid token"))
post_page_of (some h) dataptr err = do
  hash ← alloc (chars h)
  z ← send_memory dataptr err
  free hash
  alloc (chars (post_message z))

-- POST; `url_good`, `long_enough` and `valid` are its checks of the URL, of the upload's length and of
-- its bytes.
unfoldable pub post_memory : Bool → Bool → Bool → Option Bytes → Bytes → ℕ → Cmd ReqBlock Ptr
unfolding post_page_of
post_memory url_good long_enough valid hash dataptr err =
    if not url_good
    then alloc (chars (text "malformed request - invalid url"))
    else if not long_enough
    then alloc (chars (text "malformed request - invalid length"))
    else if not valid
    then alloc (chars (text "malformed request - invalid Z85"))
    else post_page_of hash dataptr err

-- whether a reply has a string
abbrev has_text : Option (Option Bytes) → Bool
has_text none = false
has_text (some none) = false
has_text (some (some s)) = true

dup_reply-MakesPage : (reply : Option (Option Bytes)) → MakesPage (has_text reply) (dup_reply reply)
unfolding dup_reply alloc
dup_reply-MakesPage none h good = (refl, nothing-Brought h good)
dup_reply-MakesPage (some none) h good = (refl, nothing-Brought h good)
dup_reply-MakesPage (some (some s)) h good = alloc-MakesPage s h good

page_or-page :
    (reply : Option (Option Bytes)) (h : Heap ReqBlock) (q : Ptr) (g : Heap ReqBlock)
    → (q == null) ≡ not (has_text reply)
    → Brought h q g
    → Ends (page_or reply q g) (λ p g'. ((p == null) ≡ false) × Brought h p g')
unfolding page_or
page_or-page none h q g e b = then_page (text "service unavailable") h q g e b
page_or-page (some none) h q g e b = rw e (then_page (text "not found") h q g e b)
page_or-page (some (some s)) h q g e b = rw e (e, b)

get_page-MakesPage :
    (hash : Option Bytes) (reply : Option (Option Bytes)) → MakesPage true (get_page hash reply)
unfolding get_page
get_page-MakesPage none reply = alloc-MakesPage (text "malformed request")
get_page-MakesPage (some key) reply = λ h good.
    Ends-bind ((alloc (chars key) >>= λ p. dup_reply reply >>= λ q. free p >> give q) h) _ _ _
      (scratch-MakesPage (has_text reply) key (dup_reply reply) (dup_reply-MakesPage reply) h good)
      (λ q g it. page_or-page reply h q g it.0 it.1)

get_memory-MakesPage :
    (url_good : Bool) (hash : Option Bytes) (reply : Option (Option Bytes))
    → MakesPage true (get_memory url_good hash reply)
unfolding get_memory
get_memory-MakesPage true hash reply = get_page-MakesPage hash reply
get_memory-MakesPage false hash reply = alloc-MakesPage (text "malformed request")

send_memory-Brought :
    (dataptr : Bytes) (err : ℕ) (h : Heap ReqBlock)
    → IsHeap h
    → Ends (send_memory dataptr err h) (λ z g. (z ≡ err) × Brought h null g)
unfolding send_memory alloc
send_memory-Brought dataptr err h good =
    let h1 = with_new h (chars dataptr) in
    let done =
      scratch-Brought dataptr h null h1 good
        (nothing-Brought h1 (alloc-IsHeap h (chars dataptr) good)) in
    rw done.0 (refl, done.1)

post_page_of-MakesPage :
    (hash : Option Bytes) (dataptr : Bytes) (err : ℕ)
    → MakesPage true (post_page_of hash dataptr err)
unfolding post_page_of alloc
post_page_of-MakesPage none dataptr err = alloc-MakesPage (text "malformed request - invalid token")
post_page_of-MakesPage (some key) dataptr err = λ h good.
    Ends-bind (send_memory dataptr err (with_new h (chars key))) _ _ _
      (send_memory-Brought dataptr err (with_new h (chars key)) (alloc-IsHeap h (chars key) good))
      (λ z g it.
        let done = scratch-Brought key h null g good it.1 in
        rw done.0 (then_page (post_message z) h null (write g h.next none) refl done.1))

post_memory-MakesPage :
    (url_good long_enough valid : Bool) (hash : Option Bytes) (dataptr : Bytes) (err : ℕ)
    → MakesPage true (post_memory url_good long_enough valid hash dataptr err)
unfolding post_memory
post_memory-MakesPage false b c hash dataptr err =
    alloc-MakesPage (text "malformed request - invalid url")
post_memory-MakesPage true false c hash dataptr err =
    alloc-MakesPage (text "malformed request - invalid length")
post_memory-MakesPage true true false hash dataptr err =
    alloc-MakesPage (text "malformed request - invalid Z85")
post_memory-MakesPage true true true hash dataptr err = post_page_of-MakesPage hash dataptr err

-- A GET and a POST, on every branch and whatever Redis replies, hand out one page in new memory, and
-- have given back all else that they took: the key, and the text of the upload.
pub pages-MakesPage :
    (url_good long_enough valid : Bool) (hash : Option Bytes) (reply : Option (Option Bytes))
    (dataptr : Bytes) (err : ℕ)
    → MakesPage true (get_memory url_good hash reply)
      × MakesPage true (post_memory url_good long_enough valid hash dataptr err)
pages-MakesPage url_good long_enough valid hash reply dataptr err = (
  get_memory-MakesPage url_good hash reply,
  post_memory-MakesPage url_good long_enough valid hash dataptr err,
)
