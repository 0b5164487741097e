-- ===== src/Netlink/Writes.antt =====
-- What the calls that build a message append to it, and what is then sent.
use mptcpd.Common.{
  ℕ, true, false, List, [], ◌∷◌, ◌++◌, ◌==◌, if◌then◌else◌, ◌≡◌, refl, ◌⊎◌, inl, inr, Bool-cases,
  append_assoc, append-nil, ◌∙◌, sym, ap, subst,
}
use mptcpd.Ell.Genl.{Genl, Token, enter, attr, leave}
use mptcpd.Events.Attributes.{Attribute}
use mptcpd.Netlink.{Completion, Kernel, Step, all_steps, unless_zero, transmit, result, enomem}

module _ (g : Genl) where
  open g use {Msg, new_sized, append_attr, enter_nested, leave_nested, command, body}

  -- There is memory for every attribute.
  pub record Roomy : Type 0 where
    pub appended : (m : Msg) (a : Attribute) → (append_attr m a).1 ≡ true
    pub entered : (m : Msg) (t : ℕ) → (enter_nested m t).1 ≡ true
    pub left : (m : Msg) → (leave_nested m).1 ≡ true

  -- A call keeps the command, appends certain tokens when it succeeds, and fails for want of memory
  -- only.
  pub record Writes (f : Step g) (ts : List Token) : Type 0 where
    pub same_command : (m : Msg) → command (f m).0 ≡ command m
    pub appends : (m : Msg) → (f m).1 ≡ true → body (f m).0 ≡ body m ++ ts
    pub succeeds : Roomy → (m : Msg) → (f m).1 ≡ true

  pub append_attr-Writes : (a : Attribute) → Writes (λ m. append_attr m a) (attr a ∷ [])
  append_attr-Writes a = record {
    same_command = λ m. g.command-append_attr m a;
    appends = λ m h. g.body-append_attr m a h;
    succeeds = λ room m. room.appended m a;
  }

  pub enter_nested-Writes : (t : ℕ) → Writes (λ m. enter_nested m t) (enter t ∷ [])
  enter_nested-Writes t = record {
    same_command = λ m. g.command-enter_nested m t;
    appends = λ m h. g.body-enter_nested m t h;
    succeeds = λ room m. room.entered m t;
  }

  pub leave_nested-Writes : Writes leave_nested (leave ∷ [])
  leave_nested-Writes = record {
    same_command = λ m. g.command-leave_nested m;
    appends = λ m h. g.body-leave_nested m h;
    succeeds = λ room m. room.left m;
  }

  goes_on :
      (f : Step g) (fs : List (Step g)) (m : Msg)
      → (f m).1 ≡ true
      → all_steps g (f ∷ fs) m ≡ all_steps g fs (f m).0
  unfolding all_steps
  goes_on f fs m e = rw (e, all_steps) refl

  stops :
      (f : Step g) (fs : List (Step g)) (m : Msg)
      → (f m).1 ≡ false
      → all_steps g (f ∷ fs) m ≡ ((f m).0, false)
  unfolding all_steps
  stops f fs m e = rw (e, all_steps) (ap (λ b. ((f m).0, b)) e)

  pub none-Writes : Writes (all_steps g []) []
  unfolding all_steps
  none-Writes = record {
    same_command = λ m. refl;
    appends = λ m ok. sym (append-nil (body m));
    succeeds = λ room m. refl;
  }

  pub more-Writes :
      (f : Step g) (fs : List (Step g)) (ts us : List Token)
      → Writes f ts
      → Writes (all_steps g fs) us
      → Writes (all_steps g (f ∷ fs)) (ts ++ us)
  more-Writes f fs ts us wf wh = record {
    same_command = λ m. elim (Bool-cases (f m).1) [
      | inl e ↦
          ap (λ r. command r.0) (goes_on f fs m e) ∙ wh.same_command (f m).0 ∙ wf.same_command m
      | inr e ↦ ap (λ r. command r.0) (stops f fs m e) ∙ wf.same_command m
    ];
    appends = λ m ok. elim (Bool-cases (f m).1) [
      | inl e ↦
          let both = goes_on f fs m e in
          ap (λ r. body r.0) both
          ∙ wh.appends (f m).0 (sym (ap (λ r. r.1) both) ∙ ok)
          ∙ ap (λ ys. ys ++ us) (wf.appends m e)
          ∙ append_assoc (body m) ts us
      | inr e ↦ let failed : false ≡ true = sym (ap (λ r. r.1) (stops f fs m e)) ∙ ok in absurd cc
    ];
    succeeds =
        λ room m. ap (λ r. r.1) (goes_on f fs m (wf.succeeds room m)) ∙ wh.succeeds room (f m).0;
  }

  -- What a list of calls appends together.
  pub data AllWrite : List (Step g) → List Token → Type 0 where
    last : {f : Step g} {ts : List Token} → Writes f ts → AllWrite (f ∷ []) ts
    more :
        {f : Step g} {fs : List (Step g)} {ts us : List Token}
        → Writes f ts
        → AllWrite fs us
        → AllWrite (f ∷ fs) (ts ++ us)

  pub all_steps-Writes :
      {fs : List (Step g)} {ts : List Token} → AllWrite fs ts → Writes (all_steps g fs) ts
  all_steps-Writes (last {f} {ts} wf) =
      subst (Writes (all_steps g (f ∷ []))) (append-nil ts) (more-Writes f [] ts [] wf none-Writes)
  all_steps-Writes (more {f} {fs} {ts} {us} wf rest) =
      more-Writes f fs ts us wf (all_steps-Writes rest)

  skipped : (f : Step g) (v : ℕ) (m : Msg) → (v == 0) ≡ true → unless_zero g v f m ≡ (m, true)
  unfolding unless_zero
  skipped f v m e = rw (e, unless_zero) refl

  kept : (f : Step g) (v : ℕ) (m : Msg) → (v == 0) ≡ false → unless_zero g v f m ≡ f m
  unfolding unless_zero
  kept f v m e = rw (e, unless_zero) refl

  pub unless_zero-Writes :
      {f : Step g} {ts : List Token} (v : ℕ)
      → Writes f ts
      → Writes (unless_zero g v f) (if v == 0 then [] else ts)
  unless_zero-Writes {f} {ts} v wf = record {
    same_command = λ m. elim (Bool-cases (v == 0)) [
      | inl e ↦ ap (λ r. command r.0) (skipped f v m e)
      | inr e ↦ ap (λ r. command r.0) (kept f v m e) ∙ wf.same_command m
    ];
    appends = λ m ok. elim (Bool-cases (v == 0)) [
      | inl e ↦ rw e (ap (λ r. body r.0) (skipped f v m e) ∙ sym (append-nil (body m)))
      | inr e ↦
          let same = kept f v m e in
          rw e (ap (λ r. body r.0) same ∙ wf.appends m (sym (ap (λ r. r.1) same) ∙ ok))
    ];
    succeeds = λ room m. elim (Bool-cases (v == 0)) [
      | inl e ↦ ap (λ r. r.1) (skipped f v m e)
      | inr e ↦ ap (λ r. r.1) (kept f v m e) ∙ wf.succeeds room m
    ];
  }

  -- A command that appends `ts` sends exactly these, or returns ENOMEM and sends nothing; it does the
  -- latter for want of memory only.
  pub transmit-sends :
      {W : Type 0} {f : Step g} {ts : List Token} (kernel : Kernel W) (cmd size : ℕ)
      (completion : Completion) (w : W)
      → Writes f ts
      → ((transmit g kernel (f (new_sized cmd size)) completion w ≡ (w, enomem)) × ¬ Roomy)
        ⊎ (transmit g kernel (f (new_sized cmd size)) completion w
            ≡ result (kernel.send cmd ts completion w))
  unfolding transmit
  transmit-sends {W} {f} {ts} kernel cmd size completion w wf =
      let m = new_sized cmd size in
      let is_cmd : command (f m).0 ≡ cmd = wf.same_command m ∙ g.command-new_sized cmd size in
      elim (Bool-cases (f m).1) [
        | inl e ↦
            let is_body : body (f m).0 ≡ ts =
              wf.appends m e ∙ ap (λ b. b ++ ts) (g.body-new_sized cmd size) in
            inr (rw (e, is_cmd, is_body) refl)
        | inr e ↦ inl (rw e refl, λ room. let ok = wf.succeeds room m in absurd cc)
      ]
