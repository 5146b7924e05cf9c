-- ===== src/Providers/F5/Servers.antt =====
-- `HandleVIP` on the provider of f5_controller.go, over a BIG-IP that keeps virtual servers under
-- their names, as they are sent, and answers their destinations in the folder `home`.
use mathlib.Core.Option
use lbconfig_operator.Base.{
  String, ◌<>◌, Bool, true, false, not, ◌&&◌, Option, none, some, ◌≡◌, refl, sym, ap, ◌∙◌, fun_ext,
  ◌==◌, string_eq, int_eq, if◌then◌else◌, Bool-cases, inl, inr, arith, Outcome, ok, Action,
}
use lbconfig_operator.Base.Decimal.{fits_int}
use lbconfig_operator.Base.Text.{has_char, starts_outside, ends_outside}
use lbconfig_operator.Api.{Provider, Vip}
use lbconfig_operator.Backend.Device.{put}
use lbconfig_operator.Backend.Handle.{vip_differs, update_vip, handle_vip}
use lbconfig_operator.Providers.{Call}
use lbconfig_operator.Providers.F5.{F5Provider, BigIp, ServerData}
use lbconfig_operator.Providers.F5.Config.{server_config, read_vip}
use lbconfig_operator.Providers.F5.Calls.{query, expect}
use lbconfig_operator.Providers.F5.Methods.{methods, get_vip, create_vip, edit_vip}
use lbconfig_operator.Providers.F5.RoundTrips.{read_vip-server_config}

abbrev pub Servers : Type 0
Servers = String → Option ServerData

abbrev pub located : String → ServerData → ServerData
located home d = record d { destination = home <> d.destination }

module _ {S : Type 0} (home : String) (servers : S → Servers) where
  pub record Stored (call : Call S (Unit {0})) (s : S) (t : Servers) : Type 0 where
    pub error : (call s).0.error ≡ none
    pub leaves : servers (call s).1 ≡ t

  pub record ServerLaws (f5 : BigIp S) : Type 0 where
    pub value :
        (k : String) (s : S)
        → (f5.get_virtual_server k s).0.value ≡ Option.map (located home) (servers s k)
    pub error : (k : String) (s : S) → (f5.get_virtual_server k s).0.error ≡ none
    pub leaves : (k : String) (s : S) → servers (f5.get_virtual_server k s).1 ≡ servers s
    pub add :
        (d : ServerData) (s : S)
        → servers s d.name ≡ none
        → Stored (f5.add_virtual_server d) s (put (servers s) d.name (some d))
    pub patch :
        (d old : ServerData) (s : S)
        → servers s d.name ≡ some old
        → Stored (f5.patch_virtual_server (home <> d.name) d) s (put (servers s) d.name (some d))

-- The IPs and ports that the provider reads back.
pub record Readable (home : String) (v : Vip) : Type 0 where
  pub plain : has_char v.ip ":" ≡ false
  pub narrow : fits_int v.port ≡ true
  pub starts : starts_outside home v.ip ≡ true
  pub ends : ends_outside home v.ip ≡ true

abbrev pub same_address : Vip → Vip → Bool
same_address v w = v.port == w.port && v.ip == w.ip

-- The virtual server after `HandleVIP`: one at the same address stays, with its pool.
abbrev pub handled : Vip → Option Vip → Vip
handled v none = v
handled v (some old) = if same_address v old then old else v

abbrev pub ReadableAt : String → Vip → Option Vip → Type 0
ReadableAt home v none = Unit {0}
ReadableAt home v (some old) = (old.name ≡ v.name) × Readable home old

differs_address :
    (v old : Vip) → vip_differs v (record old { pool = v.pool }) ≡ not (same_address v old)
differs_address v old = ground arith

put_same : (f : Servers) (k : String) (o : Option ServerData) → f k ≡ o → put f k o ≡ f
put_same f k o h = fun_ext λ j. ground (arith, h)

module _ {S : Type 0} (home : String) (colonless : has_char home ":" ≡ false)
    (servers : S → Servers) (self : S → F5Provider) (at_home : (s : S) → (self s).partition ≡ home)
    (f5 : BigIp S) (laws : ServerLaws home servers f5)
    (make : Provider → String → String → Action S (Unit {0})) where
  -- A call that succeeds and leaves the virtual servers `t`.
  pub record Leaves (r : Outcome (Unit {0}) × S) (t : Servers) : Type 0 where
    pub returns : r.0 ≡ ok tt
    pub leaves : servers r.1 ≡ t

  stored :
      (text : String → String) (call : Call S (Unit {0})) (s : S) (t : Servers)
      → Stored home servers call s t
      → Leaves (expect text call s) t
  unfolding expect
  stored text call s t h = record { returns = rw h.error refl; leaves = rw h.error h.leaves }

  read :
      (v old : Vip)
      → old.name ≡ v.name
      → Readable home old
      → read_vip f5.quote home v (located home (server_config home old))
        ≡ ok (some (record old { pool = v.pool }))
  unfolding read_vip
  read v old named r =
      read_vip-server_config f5.quote home (record old { pool = v.pool }) colonless r.plain r.narrow
        r.starts r.ends

  -- `GetVIP` reads the address of the virtual server, and takes the pool of its argument.
  abbrev seen : Vip → Option Vip → Option Vip
  seen v none = none
  seen v (some old) = some (record old { pool = v.pool })

  got :
      (v : Vip) (s : S) (was : Option Vip)
      → servers s v.name ≡ Option.map (server_config home) was
      → ReadableAt home v was
      → ((get_vip self f5 v s).0 ≡ ok (seen v was)) × (servers (get_vip self f5 v s).1 ≡ servers s)
  unfolding get_vip query
  got v s none at r = (
    rw (laws.error v.name s, laws.value v.name s, at) refl,
    rw (laws.error v.name s, laws.value v.name s, at) (laws.leaves v.name s),
  )
  got v s (some old) at (named, r) = (
    rw (laws.error v.name s, laws.value v.name s, at, at_home s) (read v old named r),
    rw (laws.error v.name s, laws.value v.name s, at) (laws.leaves v.name s),
  )

  updated :
      (v : Vip) (t : S) (was : Option Vip)
      → servers t v.name ≡ Option.map (server_config home) was
      → ReadableAt home v was
      → Leaves
          (update_vip (methods self f5 make) v (seen v was) t)
          (put (servers t) v.name (some (server_config home (handled v was))))
  unfolding update_vip methods create_vip edit_vip
  updated v t none at r = rw (at_home t) (stored _ _ t _ (laws.add (server_config home v) t at))
  updated v t (some old) at r = elim (Bool-cases (same_address v old)) [
    | inl same ↦
        rw (differs_address v old, same)
          (record { returns = refl; leaves = sym (put_same (servers t) v.name _ at) })
    | inr other ↦
        rw (differs_address v old, other, at_home t)
          (stored _ _ t _ (laws.patch (server_config home v) (server_config home old) t at))
  ]

  -- On a BIG-IP that keeps virtual servers as they are sent, in whose folder the provider's partition
  -- is, a folder without a colon, `HandleVIP` succeeds and changes no virtual server but the one of
  -- the VIP's name. That one is then the one that was asked for, if there was none or if it had
  -- another IP or port; one with this IP and port stays as it was, with its pool, whatever pool was
  -- asked for. If there was one, it was as the provider configures one, its IP has no colon and
  -- neither begins nor ends with a character of the folder, and its port is a Go int.
  pub handle_vip-methods :
      (v : Vip) (s : S) (was : Option Vip)
      → servers s v.name ≡ Option.map (server_config home) was
      → ReadableAt home v was
      → Leaves
          (handle_vip (methods self f5 make) v s)
          (put (servers s) v.name (some (server_config home (handled v was))))
  unfolding handle_vip methods
  handle_vip-methods v s was at r =
      let (returns, same) = got v s was at r in
      let t = (get_vip self f5 v s).1 in
      let done = updated v t was (ap (λ f. f v.name) same ∙ at) r in
      rw returns (record {
        returns = done.returns;
        leaves =
            done.leaves ∙ ap (λ f. put f v.name (some (server_config home (handled v was)))) same;
      })
