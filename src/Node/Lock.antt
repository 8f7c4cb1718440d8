-- ===== src/Node/Lock.antt =====
-- The lock and the lost connection, whatever Redis answers.
use webstore.Base.{
  ℕ, ◌≤◌, ◌≡◌, refl, true, false, some, ◌==◌, Bool-cases, Option-cases, inl, inr, ◌⊎◌,
}
use webstore.Base.Int.{truth}
use webstore.Base.Bytes.{Bytes, c_str, text}
use webstore.Redis.{Redis, get as cmd_get, Answer, reply, lost, Reply, ErrorKind}
use webstore.Server.{WsRt, State, log_add_to, done, Returns, Returns-bind, Returns-weaken}
use webstore.Node.{
  WsReq, get, get_with, post, post_page, answer_post, page_of, do_redis_post, set_command, node,
  method_get, method_post,
}
use webstore.Node.Post.{key_of, accepts, post_rejected, post_accepted}
use webstore.Node.Store.{do_redis_post-reply, do_redis_post-lost}
use webstore.Node.Get.{asks, get_rejected, get_accepted}

pub Answer-cases :
    (a : Answer)
    → ((kind : ErrorKind) × (e : Bytes) × (a ≡ lost kind e)) ⊎ ((r : Reply) × (a ≡ reply r))
Answer-cases (lost kind e) = inl (kind, e, refl)
Answer-cases (reply r) = inr (r, refl)

abbrev pub IsFree : {R : Redis} → Bytes × State R → Type 0
IsFree r = r.1.srv.locked ≡ false

-- What a lost connection leaves: 503, and a server that is to stop.
abbrev pub IsDown : {R : Redis} → Bytes × State R → Type 0
IsDown r =
    (r.0 ≡ text "service unavailable")
    × (r.1.ri.return_code ≡ 503)
    × (r.1.srv.locked ≡ false)
    × (r.1.srv.shutdown ≡ true)
    × (r.1.srv.redis_error ≡ true)

module _ {R : Redis} (req : WsReq) (rt : WsRt) (s : State R) (free : s.srv.locked ≡ false) where
  get_with-lost :
      (kind : ErrorKind) (e : Bytes)
      → (R.command (cmd_get (key_of req)) s.srv.db).0 ≡ lost kind e
      → Returns (get_with req rt (some (key_of req)) s) IsDown
  unfolding get_with log_add_to
  get_with-lost kind e gone = elim (Bool-cases rt.multithreaded) [
    | inl many ↦ rw (many, free, gone) (refl, refl, refl, refl, refl)
    | inr one ↦ rw (one, gone) (refl, refl, free, refl, refl)
  ]

  get_with-IsFree :
      (r : Reply)
      → (R.command (cmd_get (key_of req)) s.srv.db).0 ≡ reply r
      → Returns (get_with req rt (some (key_of req)) s) IsFree
  unfolding get_with log_add_to
  get_with-IsFree r said = elim (Option-cases (page_of r)) [
    | inl e ↦ elim (Bool-cases rt.multithreaded) [
      | inl many ↦ rw (many, free, said, e) refl
      | inr one ↦ rw (one, said, e) free
    ]
    | inr (v, e) ↦ elim (Bool-cases (truth rt.bar)) [
      | inl burn ↦ elim (Bool-cases rt.multithreaded) [
        | inl many ↦ rw (many, free, said, e, burn) refl
        | inr one ↦ rw (one, said, e, burn) free
      ]
      | inr keep ↦ elim (Bool-cases rt.multithreaded) [
        | inl many ↦ rw (many, free, said, e, keep) refl
        | inr one ↦ rw (one, said, e, keep) free
      ]
    ]
  ]

  answer_post-IsFree :
      (z : ℕ) (t : State R) → t.srv.locked ≡ false → Returns (answer_post req z t) IsFree
  unfolding answer_post log_add_to
  answer_post-IsFree z t open_ = elim (Bool-cases (z == 0)) [
    | inl good ↦ rw good open_
    | inr bad ↦ rw bad (elim (Bool-cases (z == 304)) [
      | inl kept ↦ rw (kept, post_page) open_
      | inr other ↦
          rw (other, post_page)
            (elim (Bool-cases (z == 417)) [
              | inl error ↦ rw error open_
              | inr rest ↦ rw rest (elim (Bool-cases (z == 503)) [
                | inl gone ↦ rw gone open_
                | inr last ↦ rw last open_
              ])
            ])
    ])
  ]

  do_redis_post-IsFree :
      (key data_ : Bytes) → Returns (do_redis_post rt key data_ s) (λ r. r.1.srv.locked ≡ false)
  do_redis_post-IsFree key data_ =
      elim (Answer-cases (R.command (set_command rt key (c_str data_)) s.srv.db).0) [
        | inl (kind, e, gone) ↦
            Returns-weaken (do_redis_post rt key data_ s)
              (do_redis_post-lost rt key data_ s kind e free gone) (λ r h. h.2)
        | inr (r, said) ↦ rw (do_redis_post-reply rt key data_ s r free said) free
      ]

  get-IsFree : req.urllen ≤ 255 → Returns (get req rt s) IsFree
  get-IsFree short = elim (Bool-cases (asks req)) [
    | inr refused ↦ rw (get_rejected req rt s short refused) free
    | inl passed ↦
        rw (get_accepted req rt s short passed)
          (elim (Answer-cases (R.command (cmd_get (key_of req)) s.srv.db).0) [
            | inl (kind, e, gone) ↦
                Returns-weaken (get_with req rt (some (key_of req)) s) (get_with-lost kind e gone)
                  (λ r h. h.2)
            | inr (r, said) ↦ get_with-IsFree r said
          ])
  ]

  post-IsFree : req.urllen ≤ 255 → Returns (post req rt s) IsFree
  post-IsFree short = elim (Bool-cases (accepts req s.ri.post_data)) [
    | inr refused ↦ rw (post_rejected req rt s short refused) free
    | inl passed ↦ rw (post_accepted req rt s short passed) (
        Returns-bind (do_redis_post rt (key_of req) s.ri.post_data) (answer_post req) s _ (
          Returns-weaken (do_redis_post rt (key_of req) s.ri.post_data s)
            (do_redis_post-IsFree (key_of req) s.ri.post_data)
            (λ r h. answer_post-IsFree r.0 r.1 h)))
  ]

-- A storage node called with the lock free and a URL of at most 255 characters returns, whatever
-- the method, the URL, the upload and the answers of Redis are, and the lock is free again: no
-- branch hangs, exits or keeps the lock.
pub node_frees_lock :
    {R : Redis} (type hashlen : ℕ) (url : Bytes) (urllen : ℕ) (rt : WsRt) (s : State R)
    → urllen ≤ 255
    → s.srv.locked ≡ false
    → Returns (node type hashlen url urllen rt s) IsFree
unfolding node log_add_to
node_frees_lock type hashlen url urllen rt s short free = elim (Bool-cases s.srv.shutdown) [
  | inl down ↦ rw down free
  | inr up ↦ simp up (elim (Bool-cases (s.ri.method_type == method_get)) [
    | inl is_get ↦ rw is_get (get-IsFree _ rt s free short)
    | inr other ↦ rw other (elim (Bool-cases (s.ri.method_type == method_post)) [
      | inl is_post ↦ rw is_post (post-IsFree _ rt s free short)
      | inr neither ↦ rw neither free
    ])
  ])
]

-- When the connection to Redis is lost under a GET that passes the checks, with a token of at most
-- 255 characters and the lock free, the answer is 503, the lock is free again, and the server is
-- told to stop.
pub get_lost :
    {R : Redis} (req : WsReq) (rt : WsRt) (s : State R) (kind : ErrorKind) (e : Bytes)
    → req.urllen ≤ 255
    → asks req ≡ true
    → s.srv.locked ≡ false
    → (R.command (cmd_get (key_of req)) s.srv.db).0 ≡ lost kind e
    → Returns (get req rt s) IsDown
get_lost req rt s kind e short passed free gone =
    rw (get_accepted req rt s short passed) (get_with-lost req rt s free kind e gone)

answer_post-503 :
    {R : Redis} (req : WsReq) (z : ℕ) (t : State R)
    → z ≡ 503
    → t.srv.locked ≡ false
    → t.srv.shutdown ≡ true
    → t.srv.redis_error ≡ true
    → Returns (answer_post req z t) IsDown
unfolding answer_post
answer_post-503 req z t e free down failed = rw e (refl, refl, free, down, failed)

-- When the connection to Redis is lost under a POST that passes the checks, with a token of at most
-- 255 characters and the lock free, the answer is 503, the lock is free again, and the server is
-- told to stop.
pub post_lost :
    {R : Redis} (req : WsReq) (rt : WsRt) (s : State R) (kind : ErrorKind) (e : Bytes)
    → req.urllen ≤ 255
    → accepts req s.ri.post_data ≡ true
    → s.srv.locked ≡ false
    → (R.command (set_command rt (key_of req) (c_str s.ri.post_data)) s.srv.db).0 ≡ lost kind e
    → Returns (post req rt s) IsDown
post_lost req rt s kind e short passed free gone = rw (post_accepted req rt s short passed) (
    Returns-bind (do_redis_post rt (key_of req) s.ri.post_data) (answer_post req) s _ (
      Returns-weaken (do_redis_post rt (key_of req) s.ri.post_data s)
        (do_redis_post-lost rt (key_of req) s.ri.post_data s kind e free gone)
        (λ r h. answer_post-503 req r.0 r.1 h.0 h.2 h.3 h.4)))

-- While the server shuts down a storage node answers 503 and touches neither Redis nor the log.
node_shutting_down :
    {R : Redis} (type hashlen : ℕ) (url : Bytes) (urllen : ℕ) (rt : WsRt) (s : State R)
    → s.srv.shutdown ≡ true
    → node type hashlen url urllen rt s
      ≡ done (
        text "service unavailable: shutting down",
        record s { ri = record s.ri { return_code = 503 } },
      )
unfolding node
node_shutting_down type hashlen url urllen rt s down = rw down
