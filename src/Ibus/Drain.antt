-- ===== src/Ibus/Drain.antt =====
-- An edit of the daemon at a client of IBus: what the buffered sink of crates/ibus-adapter/src/sink.rs is
-- drained to does what the sink was told.
pub mod Applied
use Prim.Native.Nat.{bit_or}
use daklak_rs.Prelude.{
  ℕ, zero, suc, ◌+◌, ◌-◌, ◌≤◌, ◌<◌, ◌≡◌, refl, sym, ap, ◌∙◌, subst, Bool, true, false, not, ◌&&◌,
  ◌||◌, List, [], ◌∷◌, ◌++◌, map, append-nil, append_assoc, arith, ltb, ◌==◌, if◌then◌else◌,
  Bool-cases, inl, inr, u32, u32_mod, usize_max, length, take, drop, is_empty, init,
}
use daklak_rs.Prelude.Int.{ℤ, pos, negsuc, neg, neg_i32}
use daklak_rs.Text.{Text, byte_len}
use daklak_rs.Strategy.Types.{
  BackspaceMethod, surrounding_text, forward_key, DeleteUnit, bytes, chars, pressed, released,
}
use daklak_rs.Strategy.Shadow.{ShadowBuffer, pop_delete_span}
use daklak_rs.Strategy.Tiers.{
  Strategy, press_backspaces, surrounding_apply, forward_key_apply, or_commit, apply_method, apply,
}
use daklak_rs.Strategy.Client.{Client, client_sink, insert, backspace, without_last, without_first}
use daklak_rs.Strategy.Client.Refinement.{Mirrors, Edits, HasNoSelection, apply-Edits}
use daklak_rs.Ibus.Keyval.{xk_backspace, ibus_forward_mask, ibus_release_mask, evdev_to_keyval}
use daklak_rs.Ibus.Sink
use daklak_rs.Ibus.Sink.{
  IbusSink, PendingDelete, PendingForward, ibus_sink, push_delete, push_commit, push_key,
}
use daklak_rs.Ibus.Engine.{
  Signal, delete_surrounding_text, forward_key_event, commit_text, require_surrounding_text,
  barrier, drain, pause,
}

-- How far an offset lies before the cursor.
abbrev pub before_of : ℤ → ℕ
before_of (pos n) = 0
before_of (negsuc n) = suc n

-- The client, as IBus documents the signals: a length is in characters, and a forwarded key that is
-- released does nothing.
abbrev pub on_signal : Signal → Client → Client
on_signal (delete_surrounding_text offset n) c = record c {
  before = take (length c.before - before_of offset) c.before;
  after = drop (n - before_of offset) c.after;
}
on_signal (forward_key_event keyval keycode state) c =
    if keyval == xk_backspace && state == ibus_forward_mask then backspace c else c
on_signal (commit_text t) c = insert c t
on_signal require_surrounding_text c = c
on_signal barrier c = c

abbrev pub deliver : List Signal → Client → Client
deliver [] c = c
deliver (s ∷ ss) c = deliver ss (on_signal s c)

deliver-append : (a b : List Signal) (c : Client) → deliver (a ++ b) c ≡ deliver b (deliver a c)
deliver-append [] b c = refl
deliver-append (s ∷ a) b c = deliver-append a b (on_signal s c)

abbrev of_delete : PendingDelete → Signal
of_delete d = delete_surrounding_text d.offset d.n_chars

abbrev of_forward : PendingForward → Signal
of_forward f = forward_key_event f.keyval f.keycode f.state

deliver-pause : (s : IbusSink) (c : Client) → deliver (pause s) c ≡ c
deliver-pause s c = elim (Bool-cases (not (is_empty s.forwards) && not (is_empty s.commits))) [
  | inl e ↦ rw e refl
  | inr e ↦ rw e refl
]

-- A drained sink comes in three parts: the deletions, the keys, the commits.
deliver-drain :
    (s : IbusSink) (c : Client)
    → deliver (drain s) c
      ≡ deliver
          (map commit_text s.commits)
          (deliver (map of_forward s.forwards) (deliver (map of_delete s.deletes) c))
unfolding drain
deliver-drain s c =
    let keys = deliver (map of_forward s.forwards) (deliver (map of_delete s.deletes) c) in
    deliver-append (map of_delete s.deletes) _ c
    ∙ deliver-append (map of_forward s.forwards) _ (deliver (map of_delete s.deletes) c)
    ∙ deliver-append (pause s) (map commit_text s.commits) keys
    ∙ ap (deliver (map commit_text s.commits)) (deliver-pause s keys)

-- A sink with no commit yet, then one: it comes last, and an empty one changes nothing where nothing is
-- selected.
deliver-push_commit :
    (s : IbusSink) (t : Text) (c : Client)
    → s.commits ≡ []
    → (deliver (drain s) c).selected ≡ []
    → deliver (drain (push_commit s t)) c ≡ insert (deliver (drain s) c) t
unfolding push_commit
deliver-push_commit s [] c none plain = λ i.
    let d = deliver (drain s) c in
    record d { before = sym (append-nil d.before) i; selected = plain i }
deliver-push_commit s (x ∷ t) c none plain =
    deliver-drain (record s { commits = s.commits ++ (x ∷ t) ∷ [] }) c
    ∙ ap (λ cs. deliver (map commit_text (cs ++ (x ∷ t) ∷ [])) keys) none
    ∙ ap (λ d. insert d (x ∷ t))
        (sym (deliver-drain s c ∙ ap (λ cs. deliver (map commit_text cs) keys) none))
  where
    keys : Client
    keys = deliver (map of_forward s.forwards) (deliver (map of_delete s.deletes) c)

-- The keys of `n` Backspaces.
presses : ℕ → List PendingForward
presses zero = []
presses (suc n) =
    record { keyval = xk_backspace; keycode = 14; state = ibus_forward_mask }
    ∷ record {
      keyval = xk_backspace;
      keycode = 14;
      state = bit_or ibus_forward_mask ibus_release_mask;
    }
    ∷ presses n

press-presses :
    (n time : ℕ) (s : IbusSink)
    → press_backspaces ibus_sink n time s ≡ record s { forwards = s.forwards ++ presses n }
unfolding press_backspaces push_key presses
press-presses zero time s = λ i. record s { forwards = sym (append-nil s.forwards) i }
press-presses (suc n) time s =
    let a : PendingForward = record {
      keyval = xk_backspace;
      keycode = 14;
      state = ibus_forward_mask;
    } in
    let b : PendingForward = record {
      keyval = xk_backspace;
      keycode = 14;
      state = bit_or ibus_forward_mask ibus_release_mask;
    } in
    press-presses n time (record s { forwards = (s.forwards ++ a ∷ []) ++ b ∷ [] }) ∙ (λ i.
      record s {
        forwards =
            (append_assoc (s.forwards ++ a ∷ []) (b ∷ []) (presses n)
                ∙ append_assoc s.forwards (a ∷ []) (b ∷ presses n))
              i;
      })

deliver-presses :
    (n time : ℕ) (c : Client)
    → deliver (map of_forward (presses n)) c ≡ press_backspaces client_sink n time c
unfolding press_backspaces presses
deliver-presses zero time c = refl
deliver-presses (suc n) time c = deliver-presses n time (backspace c)

backspace_plain : (c : Client) → c.selected ≡ [] → backspace c ≡ record c { before = init c.before }
backspace_plain c e =
    ap (λ t. if is_empty t then record c { before = init c.before } else record c { selected = [] })
      e

-- Backspaces with nothing selected.
pub press_plain :
    (n time : ℕ) (c : Client)
    → c.selected ≡ []
    → let c' = press_backspaces client_sink n time c in
      (c'.selected ≡ []) × (c'.keysyms ≡ c.keysyms)
unfolding press_backspaces
press_plain zero time c e = (e, refl)
press_plain (suc n) time c e =
    let erased = backspace_plain c e in
    let (none, same) = press_plain n time (record c { before = init c.before }) e in
    (
      ap (λ d. (press_backspaces client_sink n time d).selected) erased ∙ none,
      ap (λ d. (press_backspaces client_sink n time d).keysyms) erased ∙ same,
    )

before_of-neg : (b : ℕ) → b < 2147483648 → before_of (neg_i32 b) ≡ b
before_of-neg zero h = refl
before_of-neg (suc b) h = ground arith

delivered_presses :
    (n time : ℕ) (c : Client)
    → deliver (drain (press_backspaces ibus_sink n time Sink.new)) c
      ≡ press_backspaces client_sink n time c
delivered_presses n time c =
    ap (λ s. deliver (drain s) c) (press-presses n time Sink.new)
    ∙ deliver-drain (record { commits = []; deletes = []; forwards = presses n }) c
    ∙ deliver-presses n time c

-- Backspaces, then a commit.
pub delivered_erase :
    (n time : ℕ) (t : Text) (c : Client)
    → c.selected ≡ []
    → deliver (drain (push_commit (press_backspaces ibus_sink n time Sink.new) t)) c
      ≡ insert (press_backspaces client_sink n time c) t
delivered_erase n time t c plain =
    let same = delivered_presses n time c in
    deliver-push_commit (press_backspaces ibus_sink n time Sink.new) t c
      (ap (λ (s : IbusSink). s.commits) (press-presses n time Sink.new))
      (ap (λ (d : Client). d.selected) same ∙ (press_plain n time c plain).0)
    ∙ ap (λ d. insert d t) same

-- A deletion before the cursor alone, then a commit.
pub delivered_delete :
    (b : ℕ) (t : Text) (c : Client)
    → b < 2147483648
    → c.selected ≡ []
    → deliver (drain (push_commit (push_delete Sink.new b 0) t)) c
      ≡ insert (record c { before = take (length c.before - b) c.before }) t
unfolding push_delete
delivered_delete b t c small plain =
    deliver-push_commit (push_delete Sink.new b 0) t c refl
      (ap (λ (d : Client). d.selected) same ∙ plain)
    ∙ ap (λ d. insert d t) same
  where
    rest : u32 (b + 0) - b ≡ 0
    rest = omega arith

    cut_at : ℕ → ℕ → Client
    cut_at k z = record c { before = take (length c.before - k) c.before; after = drop z c.after }

    same :
        deliver (drain (push_delete Sink.new b 0)) c
        ≡ record c { before = take (length c.before - b) c.before }
    same =
        deliver-drain (push_delete Sink.new b 0) c
        ∙ ap (λ k. cut_at k (u32 (b + 0) - k)) (before_of-neg b small)
        ∙ ap (cut_at b) rest
