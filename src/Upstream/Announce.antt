-- ===== src/Upstream/Announce.antt =====
-- `upstream_announce` with the listener manager of `lib/listener_manager.c` behind it.
use mptcpd.Common.{
  ℕ, true, Option, none, some, ◌≡◌, refl, ap, ◌⊎◌, ℤ, pos, negsuc, zero, suc, if◌then◌else◌,
}
use mptcpd.Ell.Genl.{Genl}
use mptcpd.ListenerManager.Count.{Listened}
use mptcpd.ListenerManager.Invariant.{Inv, Honest, Stores}
use mptcpd.ListenerManager.Listen.{lm_listen-Listened}
use mptcpd.ListenerManager.{ListenerMap, Lm, Answers, lm_listen}
use mptcpd.Netlink.{Kernel, result, logs, enomem}
use mptcpd.Netlink.Writes.{Roomy}
use mptcpd.Sockaddr.{Sockaddr}
use mptcpd.Upstream.Tokens.{announce_tokens}
use mptcpd.Upstream.Wire.{info_of, send_add_addr-Outcome}
use mptcpd.Upstream.{announced, is_zero, send_add_addr, upstream_announce}

module _ (p : ListenerMap) where
  -- The kernel, `pm->lm`, and the address in the memory of the caller.
  pub record Host (N : Type 0) : Type 0 where
    pub net : N
    pub lm : Option (Lm p)
    pub addr : Option Sockaddr

  -- `mptcpd_lm_listen` on `pm->lm` and the address of the caller, where the state of the kernel
  -- settles its answers.
  unfoldable pub listen_on :
      {N : Type 0} → (N → Answers) → Sockaddr → Host N → Host N × Sockaddr × ℤ
  listen_on answers addr h =
      let r = lm_listen p (answers h.net) h.lm (some addr) in
      (record h { lm = r.0; addr = r.1 }, elim r.1 [ none ↦ addr | some bound ↦ bound ], r.2)

  -- Sending changes the kernel only.
  abbrev pub hosted : {N : Type 0} → Kernel N → Kernel (Host N)
  hosted kernel = record {
    send = λ cmd ts c h. let r = kernel.send cmd ts c h.net in (record h { net = r.0 }, r.1);
    dump = λ cmd ts c h. let r = kernel.dump cmd ts c h.net in (record h { net = r.0 }, r.1);
  }

  module _ (g : Genl) {N : Type 0} (kernel : Kernel N) (answers : N → Answers) where
    -- `upstream_announce` of an address that is to be listened on.
    unfoldable pub announce_listening :
        Sockaddr → ℕ → ℕ → (Host N → Host N × ℤ) → Host N → Host N × ℤ
    announce_listening addr id token at_null h =
        upstream_announce g (hosted kernel) (listen_on answers) at_null addr id token true h

    -- What is left when listening has come to `lm'`, the address `sa'` and the result 0: the
    -- announcement of `sa'`, flagged to be signalled, was not sent for want of memory, or it was sent.
    abbrev pub SentOrNot : N → Lm p → Sockaddr → ℕ → ℕ → Host N × ℤ → Type 0
    SentOrNot n lm' sa' id token r =
        let h : Host N = record { net = n; lm = some lm'; addr = some sa' } in
        let ts = announce_tokens (info_of sa' id 1 (pos 0)) token in
        ((r ≡ (h, enomem)) × ¬ Roomy g)
        ⊎ (let s = result (kernel.send 8 ts logs n) in r ≡ (record h { net = s.0 }, s.1))

    -- The same after any result `z` of listening; other results than 0 are passed on.
    abbrev pub After : N → Lm p → Sockaddr → ℤ → ℕ → ℕ → Host N × ℤ → Type 0
    After n lm' sa' (pos zero) id token r = SentOrNot n lm' sa' id token r
    After n lm' sa' z id token r = r ≡ (record { net = n; lm = some lm'; addr = some sa' }, z)

    send-After :
        (n : N) (lm' : Lm p) (sa' : Sockaddr) (z : ℤ) (id token : ℕ)
        → let h : Host N = record { net = n; lm = some lm'; addr = some sa' } in
          After n lm' sa' z id token (
            if is_zero z
            then send_add_addr g (hosted kernel) 8 (announced sa' id) token h
            else (h, z))
    send-After n lm' sa' (pos zero) id token =
        send_add_addr-Outcome g (hosted kernel) 8 (announced sa' id) token _
    send-After n lm' sa' (pos (suc k)) id token = refl
    send-After n lm' sa' (negsuc k) id token = refl

    listen_on_lem :
        (n : N) (lm lm' : Lm p) (sa sa' : Sockaddr) (z : ℤ)
        → lm_listen p (answers n) (some lm) (some sa) ≡ (some lm', some sa', z)
        → listen_on answers sa (record { net = n; lm = some lm; addr = some sa })
          ≡ (record { net = n; lm = some lm'; addr = some sa' }, sa', z)
    unfolding listen_on
    listen_on_lem n lm lm' sa sa' z e =
        let left : Option (Lm p) × Option Sockaddr × ℤ → Host N × Sockaddr × ℤ = λ r. (
          record { net = n; lm = r.0; addr = r.1 },
          elim r.1 [ none ↦ sa | some bound ↦ bound ],
          r.2,
        ) in
        ap left e

    announce-After :
        (n : N) (lm lm' : Lm p) (sa sa' : Sockaddr) (z : ℤ) (id token : ℕ)
        (at_null : Host N → Host N × ℤ)
        → lm_listen p (answers n) (some lm) (some sa) ≡ (some lm', some sa', z)
        → After n lm' sa' z id token (
            announce_listening sa id token at_null
              (record { net = n; lm = some lm; addr = some sa }))
    unfolding announce_listening upstream_announce
    announce-After n lm lm' sa sa' z id token at_null e =
        rw (listen_on_lem n lm lm' sa sa' z e) (send-After n lm' sa' z id token)

    -- Announcing an address with a listener, on a valid listener manager, with a kernel that keeps
    -- its guarantees and a hash map that takes the entry: where listening fails, its result is the
    -- result, nothing is sent, and no count has changed. Where it succeeds, the address that the
    -- kernel has bound is announced with its port, and there is one listener more on it; this is so
    -- too where the announcement then fails with ENOMEM, for want of memory for an attribute, or with
    -- 1, and nothing takes the listener back.
    pub announce-Listened :
        (n : N) (lm lm' : Lm p) (sa sa' : Sockaddr) (z : ℤ) (id token : ℕ)
        (at_null : Host N → Host N × ℤ)
        → Honest p lm (answers n)
        → Stores p lm (answers n)
        → Inv p lm
        → lm_listen p (answers n) (some lm) (some sa) ≡ (some lm', some sa', z)
        → Listened p lm lm' sa' z
          × After n lm' sa' z id token (
              announce_listening sa id token at_null
                (record { net = n; lm = some lm; addr = some sa }))
    announce-Listened n lm lm' sa sa' z id token at_null honest stores inv e = (
      lm_listen-Listened p lm lm' (answers n) sa sa' z honest stores inv e,
      announce-After n lm lm' sa sa' z id token at_null e,
    )
