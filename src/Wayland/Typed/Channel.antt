-- ===== src/Wayland/Typed/Channel.antt =====
-- `commit_key_channel_text` of crates/wayland-adapter/src/sink.rs on version 2, at the client.
use daklak_rs.Prelude.{
  ℕ, suc, ◌≤◌, ◌≡◌, refl, sym, ap, ◌∙◌, subst, Bool, true, false, ◌&&◌, List, [], ◌∷◌, ◌++◌,
  append_assoc, append-nil, arith, Bool-cases, inl, inr, all, length, take,
}
use daklak_rs.Text.{Text}
use daklak_rs.Keymap.{char_to_emit}
use daklak_rs.Keymap.Xkb.{Xkbcommon}
use daklak_rs.Emitter.Client.{Client}
use daklak_rs.Wayland.Frame.{im_v2}
use daklak_rs.Wayland.State.{AdapterState, Request}
use daklak_rs.Wayland.Sink.{SinkParams, commit_char, channel_loop, has_key, commit_key_channel_text}
use daklak_rs.Wayland.Typed.{IsReady, text_of, IsTyped, commit_char-IsTyped}

all_cons : (a b : Bool) → (a && b) ≡ true → (a ≡ true) × (b ≡ true)
all_cons true b h = (refl, h)
all_cons false b h = cc

module _ {K : Type 0} (lib : Xkbcommon K) (flush : List Request → Bool) (c0 : Client)
    (p : SinkParams) where
  -- The client has the first `n` characters of the text, all of them if no flush fails, and the sink
  -- reports the text as sent.
  abbrev pub IsSentUpTo : ℕ → Text → AdapterState K → AdapterState K × Bool → Type 0
  IsSentUpTo n t s (s', done) =
      (done ≡ true)
      × (n ≤ length t)
      × (text_of c0 p s' ≡ text_of c0 p s ++ take n t)
      × (((rs : List Request) → flush rs ≡ true) → n ≡ length t)

  channel_loop-IsSentUpTo :
      (now time : ℕ) (t : Text) (s : AdapterState K)
      → p.protocol ≡ im_v2
      → all (λ c. has_key (char_to_emit c)) t ≡ true
      → IsReady c0 p s
      → (n : ℕ) × IsSentUpTo n t s (channel_loop lib flush p now time t s)
  unfolding channel_loop
  channel_loop-IsSentUpTo now time [] s v2 keys ready =
      (0, (refl, omega arith, sym (append-nil _), λ h. refl))
  channel_loop-IsSentUpTo now time (c ∷ cs) s v2 keys ready =
      let (key, others) = all_cons (has_key (char_to_emit c)) _ keys in
      let (done, ready', typed) =
        subst (λ x. IsTyped c0 p c s (commit_char p x time c now s)) (sym v2)
          (commit_char-IsTyped c0 p time c now s key ready) in
      let s' = (commit_char p p.protocol time c now s).0 in
      elim (Bool-cases (flush s'.sent)) [
        | inl ok ↦
            let (n, (sent, below, text, whole)) =
              channel_loop-IsSentUpTo now time cs s' v2 others ready' in
            (
              suc n,
              rw (done, ok)
                  (
                    sent,
                    omega arith,
                    text
                        ∙ ap (λ x. x ++ take n cs) typed
                        ∙ append_assoc (text_of c0 p s) (c ∷ []) (take n cs),
                    λ h. ap suc (whole h),
                  ),
            )
        | inr failed ↦ (1, rw (done, failed) (refl, omega arith, typed, λ h. cc (h s'.sent)))
      ]

  -- For a text of characters that the synthetic keymap has, sent over the virtual keyboard while no
  -- modifier is down and no key but the user's, `commit_key_channel_text` reports success, and the client
  -- has typed a beginning of the text after what it had: all of it if no flush fails.
  pub commit_key_channel_text-IsSentUpTo :
      (now serial time : ℕ) (t : Text) (s : AdapterState K)
      → p.protocol ≡ im_v2
      → all (λ c. has_key (char_to_emit c)) t ≡ true
      → IsReady c0 p s
      → (n : ℕ) × IsSentUpTo n t s (commit_key_channel_text lib flush p now im_v2 serial time t s)
  unfolding commit_key_channel_text
  commit_key_channel_text-IsSentUpTo now serial time t s v2 keys ready =
      rw keys (channel_loop-IsSentUpTo now time t s v2 keys ready)
