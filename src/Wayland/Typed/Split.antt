-- ===== src/Wayland/Typed/Split.antt =====
-- `commit_via_keysym` of crates/wayland-adapter/src/sink.rs on version 2, at the client: what it types, and
-- what is committed as text.
use daklak_rs.Prelude.{
  ℕ, ◌≡◌, refl, sym, ap, ◌∙◌, subst, Bool, true, false, List, [], ◌∷◌, ◌++◌, append_assoc,
  append-nil, if◌then◌else◌, Bool-cases, inl, inr,
}
use daklak_rs.Text.{Text}
use daklak_rs.Keymap.{Emit, panic, absent, emit, char_to_emit}
use daklak_rs.Keymap.Xkb.{Xkbcommon}
use daklak_rs.Emitter.{KeyEmitter, SyntheticMods, EmitCharParams, emit_char, emit_found}
use daklak_rs.Emitter.Keeps.{emit_char_keeps}
use daklak_rs.Emitter.Client.{Client}
use daklak_rs.Wayland.Frame.{im_v2}
use daklak_rs.Wayland.State.{AdapterState, Request, im_commit_string}
use daklak_rs.Wayland.Sink.{
  SinkParams, vk_emitter, commit_char, emit_on_vk, keys_loop, commit_rest, commit_text, commit,
  has_key, commit_via_keysym,
}
use daklak_rs.Wayland.Typed.{replay, IsReady, text_of, IsTyped, commit_char-IsTyped}

-- The characters of a text that the synthetic keymap has, and the others, each in order.
abbrev pub keyed : Text → Text
keyed [] = []
keyed (c ∷ cs) = if has_key (char_to_emit c) then c ∷ keyed cs else keyed cs

abbrev pub unkeyed : Text → Text
unkeyed [] = []
unkeyed (c ∷ cs) = if has_key (char_to_emit c) then unkeyed cs else c ∷ unkeyed cs

found_lacks :
    {S : Type 0} (e : KeyEmitter S) (found : Emit) (p : EmitCharParams) (now : ℕ)
    (sq : S × SyntheticMods)
    → has_key found ≡ false
    → emit_found e found p now sq ≡ (sq, false)
unfolding emit_found
found_lacks e panic p now sq h = refl
found_lacks e absent p now sq h = refl
found_lacks e (emit spec) p now sq h = cc

-- The texts committed, the latest first.
abbrev pub committed : List Request → List Text
committed [] = []
committed (im_commit_string t ∷ rs) = t ∷ committed rs
committed (_ ∷ rs) = committed rs

abbrev pub with_rest : Text → List Text → List Text
with_rest [] ts = ts
with_rest (c ∷ cs) ts = (c ∷ cs) ∷ ts

module _ {K : Type 0} (c0 : Client) (p : SinkParams) where
  -- A character that the keymap lacks changes nothing that the client sees.
  abbrev IsSkipped : AdapterState K → AdapterState K × Bool → Type 0
  IsSkipped s (s', done) = (done ≡ false) × IsReady c0 p s' × (s'.sent ≡ s.sent)

  emit_on_vk-IsSkipped :
      (time c now : ℕ) (s : AdapterState K)
      → has_key (char_to_emit c) ≡ false
      → IsReady c0 p s
      → IsSkipped s (emit_on_vk p time c now s)
  unfolding emit_on_vk emit_char
  emit_on_vk-IsSkipped time c now s lacks ready =
      let params : EmitCharParams = record {
        raw_mods = p.raw_mods;
        held_user_kc = p.held_user_kc;
        time = time;
        c = c;
      } in
      subst (IsSkipped s)
        (sym (
          ap
            (λ (r : (AdapterState K × SyntheticMods) × Bool).
              (record (r.0.0) { synthetic_mods = r.0.1 }, r.1))
            (found_lacks vk_emitter (char_to_emit c) params now (s, s.synthetic_mods) lacks)))
        (refl, record { holds = ready.holds; mods = ready.mods; bare = ready.bare }, refl)

  -- What is typed is not committed.
  committed-emit_on_vk :
      (time c now : ℕ) (s : AdapterState K)
      → committed (emit_on_vk p time c now s).0.sent ≡ committed s.sent
  unfolding emit_on_vk
  committed-emit_on_vk time c now s =
      emit_char_keeps vk_emitter (λ (t : AdapterState K). committed t.sent) (λ s time kc v. refl)
        (λ s m. refl)
        (record { raw_mods = p.raw_mods; held_user_kc = p.held_user_kc; time = time; c = c }) now s
        s.synthetic_mods

module _ {K : Type 0} (lib : Xkbcommon K) (flush : List Request → Bool) (c0 : Client)
    (p : SinkParams) where
  -- The client has typed the characters of the keymap, and the others are committed after them.
  abbrev pub IsSplit : Text → Text → AdapterState K → AdapterState K → Type 0
  IsSplit rest t s s' =
      (text_of c0 p s' ≡ text_of c0 p s ++ keyed t)
      × (committed s'.sent ≡ with_rest (rest ++ unkeyed t) (committed s.sent))

  commit_rest-IsSplit :
      (now serial : ℕ) (rest : Text) (s : AdapterState K)
      → p.protocol ≡ im_v2
      → IsSplit rest [] s (commit_rest lib flush p now serial rest s)
  unfolding commit_rest
  commit_rest-IsSplit now serial [] s v2 = (sym (append-nil _), refl)
  commit_rest-IsSplit now serial (c ∷ cs) s v2 =
      subst (λ x. IsSplit (c ∷ cs) [] s (commit x serial (commit_text x p.serial (c ∷ cs) s)))
        (sym v2)
        (unfold commit commit_text in
          (sym (append-nil _), ap (λ t. (c ∷ t) ∷ committed s.sent) (sym (append-nil cs))))

  keys_loop-IsSplit :
      (now serial time : ℕ) (t rest : Text) (s : AdapterState K)
      → p.protocol ≡ im_v2
      → ((rs : List Request) → flush rs ≡ true)
      → IsReady c0 p s
      → IsSplit rest t s (keys_loop lib flush p now serial time t rest s)
  unfolding keys_loop
  keys_loop-IsSplit now serial time [] rest s v2 flushes ready =
      let (typed, sent) = commit_rest-IsSplit now serial rest s v2 in (typed, sent)
  keys_loop-IsSplit now serial time (c ∷ cs) rest s v2 flushes ready =
      let (s', done) = commit_char p p.protocol time c now s in
      let kept : committed s'.sent ≡ committed s.sent =
        subst (λ x. committed (commit_char p x time c now s).0.sent ≡ committed s.sent) (sym v2)
          (unfold commit_char in committed-emit_on_vk c0 p time c now s) in
      elim (Bool-cases (has_key (char_to_emit c))) [
        | inl key ↦
            let (done, ready', typed) =
              subst (λ x. IsTyped c0 p c s (commit_char p x time c now s)) (sym v2)
                (commit_char-IsTyped c0 p time c now s key ready) in
            let (text, sent) = keys_loop-IsSplit now serial time cs rest s' v2 flushes ready' in
            rw (done, flushes s'.sent, key)
              (
                text
                    ∙ ap (λ x. x ++ keyed cs) typed
                    ∙ append_assoc (text_of c0 p s) (c ∷ []) (keyed cs),
                sent ∙ ap (with_rest (rest ++ unkeyed cs)) kept,
              )
        | inr lacks ↦
            let (skips, ready', same) =
              subst (λ x. IsSkipped c0 p s (commit_char p x time c now s)) (sym v2)
                (unfold commit_char in emit_on_vk-IsSkipped c0 p time c now s lacks ready) in
            let (text, sent) =
              keys_loop-IsSplit now serial time cs (rest ++ c ∷ []) s' v2 flushes ready' in
            rw (skips, lacks)
              (
                text ∙ ap (λ x. (replay x c0).text ++ keyed cs) same,
                sent
                    ∙ ap (λ x. with_rest x (committed s'.sent))
                        (append_assoc rest (c ∷ []) (unkeyed cs))
                    ∙ ap (with_rest (rest ++ c ∷ unkeyed cs)) kept,
              )
      ]

  -- With `commit_string` out of use, no flush that fails, no modifier down and no key but the user's,
  -- `commit_via_keysym` reports success. The client has typed the characters that the synthetic keymap
  -- has, in order, and the others are committed as one text after them: no character is lost, but one
  -- outside the keymap moves behind all that follow it.
  pub commit_via_keysym-IsSplit :
      (now serial time : ℕ) (t : Text) (s : AdapterState K)
      → p.protocol ≡ im_v2
      → p.commit_string_functional ≡ false
      → ((rs : List Request) → flush rs ≡ true)
      → IsReady c0 p s
      → let sent = commit_via_keysym lib flush p now im_v2 serial time t s in
        (sent.1 ≡ true) × IsSplit [] t s sent.0
  unfolding commit_via_keysym
  commit_via_keysym-IsSplit now serial time t s v2 dead flushes ready =
      rw dead (refl, keys_loop-IsSplit now serial time t [] s v2 flushes ready)
