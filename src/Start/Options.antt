-- ===== src/Start/Options.antt =====
-- The options of the daemon in a build with USEMHDOPTS (src/searest.c, searest_start): an array that
-- grows by one for each option, in place of a list of arguments.
use webstore.Base.{ℕ, ◌≡◌, Option, none, some, List, [], ◌∷◌, ◌++◌, Option-cases, inl, inr}
use webstore.Base.Bytes.{Bytes}
use webstore.Redis.{Redis}
use webstore.Searest.{Sri}
use webstore.Start.{
  MhdOption, sock_addr, uri_log_callback, notify_completed, connection_timeout, connection_limit,
  https_mem_cert, https_mem_key, https_mem_trust, https_options, daemon_options,
}

-- struct MHD_OptionItem; `option_end` is MHD_OPTION_END
pub data OptionItem : Type 0 where
  item : MhdOption → OptionItem
  option_end : OptionItem

-- realloc to one more, and mhdops[i++] = ...
abbrev add_item : OptionItem → List OptionItem → List OptionItem
add_item x mhdops = mhdops ++ x ∷ []

add_ca : Option Bytes → List OptionItem → List OptionItem
add_ca none mhdops = mhdops
add_ca (some ca) mhdops = add_item (item (https_mem_trust ca)) mhdops

-- if(ws->https_cert && ws->https_key)
add_https : Option Bytes → Option Bytes → Option Bytes → List OptionItem → List OptionItem
unfolding add_ca
add_https (some cert) (some key) ca mhdops =
    add_ca ca (add_item (item (https_mem_key key)) (add_item (item (https_mem_cert cert)) mhdops))
add_https (some cert) none ca mhdops = mhdops
add_https none key ca mhdops = mhdops

pub mhd_ops : {R : Redis} → Option Bytes → ℕ → Sri R → List OptionItem
unfolding add_https
mhd_ops ip4addr port ws = add_item option_end (
    add_https ws.https_cert ws.https_key ws.https_ca (
      add_item (item (connection_limit ws.conn_limit)) (
        add_item (item (connection_timeout ws.inactivity_timeout)) (
          add_item (item notify_completed)
            (add_item (item uri_log_callback) (add_item (item (sock_addr ip4addr port)) []))))))

-- what libmicrohttpd takes from the array: the options up to the end
pub options_of : List OptionItem → List MhdOption
options_of [] = []
options_of (item o ∷ more) = o ∷ options_of more
options_of (option_end ∷ more) = []

-- Both builds ask libmicrohttpd for the same options, in the same order.
pub mhd_ops-daemon_options :
    {R : Redis} (ip4addr : Option Bytes) (port : ℕ) (ws : Sri R)
    → options_of (mhd_ops ip4addr port ws) ≡ daemon_options ip4addr port ws
unfolding options_of mhd_ops add_https add_ca daemon_options https_options
mhd_ops-daemon_options ip4addr port ws = elim (Option-cases ws.https_cert) [
  | inl e ↦ rw e
  | inr (cert, e) ↦ rw e (elim (Option-cases ws.https_key) [
    | inl f ↦ rw f
    | inr (key, f) ↦ rw f (elim (Option-cases ws.https_ca) [ inl g ↦ rw g | inr (ca, g) ↦ rw g ])
  ])
]
