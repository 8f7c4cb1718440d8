-- ===== src/Threads/Burn.antt =====
-- Burn after reading (src/webstore_node.c, get) when threads that interleave ask for one token.
use webstore.Base.{ℕ, ◌≡◌, refl, ap, ◌∙◌, true, none, some, List, [], ◌∷◌}
use webstore.Base.Int.{truth}
use webstore.Base.Bytes.{Bytes, bytes_eq_refl, c_str}
use webstore.Redis.{Redis, IsRedis, del}
use webstore.Server.{WsRt, Server}
use webstore.Node.{Fetched, fetched, page_of, is_page}
use webstore.Node.Section.{get_section, on_get_reply, burn_or_keep}
use webstore.Threads.System.{System, Reach, start}
use webstore.Threads.Turn.{exec, in_turn}
use webstore.Threads.Invariant.{order}
use webstore.Threads.Serial.{finished_results}

-- the results of threads, the latest first, of which only the first to leave finds the text
unfoldable pub read_once : Bytes → List ℕ → List (ℕ × Fetched)
read_once page [] = []
read_once page (i ∷ []) = (i, fetched (some page)) ∷ []
read_once page (i ∷ j ∷ rest) = (i, fetched none) ∷ read_once page (j ∷ rest)

module _ {R : Redis} (laws : IsRedis R) where
  open laws use {alive, find, get_lem, del_alive, find-del}

  module _ (rt : WsRt) (hash : Bytes) (burn : truth rt.bar ≡ true) where
    get-exec-found :
        (d : R.Db) (v : Bytes)
        → alive d ≡ true
        → find d hash ≡ some v
        → exec R (get_section rt hash) d ≡ (fetched (some (c_str v)), (R.command (del hash) d).1)
    unfolding exec get_section on_get_reply burn_or_keep page_of is_page
    get-exec-found d v live e = rw (exec, get_lem d hash live, e, burn)

    get-exec-gone :
        (d : R.Db)
        → alive d ≡ true
        → find d hash ≡ none
        → exec R (get_section rt hash) d ≡ (fetched none, d)
    unfolding exec get_section on_get_reply burn_or_keep page_of is_page
    get-exec-gone d live e = rw (exec, get_lem d hash live, e)

    -- the database after the threads: the text is there until one has read it
    abbrev Stored : Bytes → List ℕ → R.Db → Type 0
    Stored v [] d = find d hash ≡ some v
    Stored v (i ∷ threads) d = find d hash ≡ none

    in_turn-read_once :
        (d : R.Db) (v : Bytes) (threads : List ℕ)
        → alive d ≡ true
        → find d hash ≡ some v
        → ((in_turn R (λ _. get_section rt hash) d threads).0 ≡ read_once (c_str v) threads)
          × Stored v threads (in_turn R (λ _. get_section rt hash) d threads).1
          × (alive (in_turn R (λ _. get_section rt hash) d threads).1 ≡ true)
    unfolding in_turn read_once
    in_turn-read_once d v [] live e = (refl, e, live)
    in_turn-read_once d v (i ∷ []) live e =
        rw (get-exec-found d v live e)
          (refl, find-del d hash hash live ∙ rw (bytes_eq_refl), del_alive d hash live)
    in_turn-read_once d v (i ∷ j ∷ threads) live e =
        let before = in_turn-read_once d v (j ∷ threads) live e in
        rw (get-exec-gone _ before.2 before.1)
          (ap (λ l. (i, fetched none) ∷ l) before.0, before.1, before.2)

    -- Whatever the interleaving of the threads that ask for one stored token with BAR set: of those
    -- that have left, the first to leave has the text, up to its first NUL, and every other has
    -- found nothing. Redis works.
    pub threads_read_once :
        (srv : Server R) (y : System R Fetched) (v : Bytes)
        → Reach (start (λ _. get_section rt hash) srv) y
        → alive srv.db ≡ true
        → find srv.db hash ≡ some v
        → y.finished ≡ read_once (c_str v) (order y)
    threads_read_once srv y v way live e =
        finished_results (λ _. get_section rt hash) srv y way
        ∙ (in_turn-read_once srv.db v (order y) live e).0
