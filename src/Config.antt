-- ===== src/Config.antt =====
-- The configuration node (src/webstore_node.c, nodecfg): the text of one option or of all.
pub mod Page
use webstore.Base.{
  ℕ, zero, suc, ◌+◌, ◌-◌, ◌<◌, Bool, true, false, not, ◌&&◌, ◌||◌, List, [], ◌∷◌, ◌++◌, ltb, ◌==◌,
  if◌then◌else◌, length, take,
}
use webstore.Base.Int.{ℤ}
use webstore.Base.Bytes.{Bytes, bytes_eq, text}
use webstore.Base.Decimal.{decimal_ℤ}
use webstore.Redis.{Redis}
use webstore.Server.{
  WsRt, M, State, ◌>>=◌, ◌>>◌, pure, log_add, wslog_warn, srci_set_return_code, client_ip_text,
}
use webstore.Node.{respond, shutdownmsg, method_not_allowed, method_get}

-- the four flags that the path sets
pub record Wanted : Type 0 where
  pub maxuploadsize : Bool
  pub expiration : Bool
  pub immutable : Bool
  pub bar : Bool

unfoldable pub wanted : Bytes → Wanted
wanted url =
    if bytes_eq url (text "all")
    then record { maxuploadsize = true; expiration = true; immutable = true; bar = true }
    else record {
      maxuploadsize = bytes_eq url (text "maxuploadsize");
      expiration = bytes_eq url (text "expiration");
      immutable = bytes_eq url (text "immutable");
      bar = bytes_eq url (text "bar");
    }

unfoldable pub any_wanted : Wanted → Bool
any_wanted c = c.maxuploadsize || c.expiration || c.immutable || c.bar

abbrev page_size : ℕ
page_size = 512

-- `page`, as a string, and `n`
pub record Printed : Type 0 where
  pub page : Bytes
  pub n : ℕ

-- n += snprintf(page+n, sizeof(page)-n, ...): `n` grows by the whole length, cut or not.
pub snprintf_at : Bytes → Printed → Printed
snprintf_at line p = record {
  page = p.page ++ take (page_size - 1 - p.n) line;
  n = p.n + length line;
}

pub print_if : Bool → Bytes → Printed → Printed
print_if b line p = if b then snprintf_at line p else p

-- the lines, each with its newline (10)
unfoldable pub maxuploadsize_line : WsRt → Bytes
maxuploadsize_line rt =
    text "MAXUPLOADSIZE: " ++ (decimal_ℤ rt.max_post_data_size ++ (text " bytes" ++ 10 ∷ []))

unfoldable pub expiration_line : WsRt → Bytes
expiration_line rt =
    text "EXPIRATION: " ++ (decimal_ℤ rt.expiration ++ (text " seconds" ++ 10 ∷ []))

unfoldable pub immutable_line : WsRt → Bytes
immutable_line rt = text "IMMUTABLE: " ++ (decimal_ℤ rt.immutable ++ 10 ∷ [])

unfoldable pub bar_line : WsRt → Bytes
bar_line rt = text "BAR: " ++ (decimal_ℤ rt.bar ++ 10 ∷ [])

pub print_page : Wanted → WsRt → Printed
print_page c rt = print_if c.bar (bar_line rt) (
    print_if c.immutable (immutable_line rt) (
      print_if c.expiration (expiration_line rt)
        (print_if c.maxuploadsize (maxuploadsize_line rt) (record { page = []; n = 0 }))))

pub nodecfg : {R : Redis} → Bytes → ℕ → WsRt → M R Bytes
unfolding respond shutdownmsg method_not_allowed
nodecfg url urllen rt s =
    if s.srv.shutdown
    then shutdownmsg s
    else if not (s.ri.method_type == method_get)
    then method_not_allowed s
    else if not (any_wanted (wanted url))
    then respond 404 (take (page_size - 1) (text "Unknown Config Option: " ++ (url ++ 10 ∷ []))) s
    else respond 200 (print_page (wanted url) rt).page s
