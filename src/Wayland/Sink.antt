-- ===== src/Wayland/Sink.antt =====
-- `AdapterSink` of crates/wayland-adapter/src/sink.rs, over the state of the adapter, with the emitters
-- of crates/key-emitter/src/vk_v1.rs and vk_v2.rs. What `flush_connection` returns is a parameter, a test
-- of what was sent. Log lines are left out.
use Prim.Native.Nat.{bit_or}
use daklak_rs.Prelude.{
  ℕ, ◌+◌, Bool, true, false, not, ◌&&◌, List, [], ◌∷◌, ◌++◌, Option, none, some, ltb, ◌==◌,
  if◌then◌else◌, u32, is_empty, all,
}
use daklak_rs.Prelude.Int.{neg_i32}
use daklak_rs.Text.{Text}
use daklak_rs.Strategy.Types.{OutputSink, KeyState, pressed, released}
use daklak_rs.Keymap.{Emit, emit, char_to_emit}
use daklak_rs.Keymap.Xkb.{Xkbcommon, char_to_keycode}
use daklak_rs.Emitter.{ModifierSnapshot, KeyEmitter, EmitCharParams, is_held, emit_char}
use daklak_rs.Wayland.Frame.{ImProtocol, im_v2, im_v1}
use daklak_rs.Wayland.State.{
  AdapterState, Request, send, vk_key, vk_modifiers, im_commit, im_commit_string,
  im_delete_surrounding, ctx_key, ctx_modifiers, ctx_commit_string, ctx_delete_surrounding,
  ctx_keysym,
}

-- What the sink holds besides the adapter's state. `protocol` selects the target of the text operations.
pub record SinkParams : Type 0 where
  pub protocol : ImProtocol
  pub serial : ℕ
  pub raw_mods : ModifierSnapshot
  pub held_user_kc : Option ℕ
  pub commit_string_functional : Bool

-- `(depressed | latched | locked) != 0`.
abbrev pub any_mods : ModifierSnapshot → Bool
any_mods m = ltb 0 (bit_or (bit_or m.depressed m.latched) m.locked)

unfoldable pub v1_keysym_needs_modifier_guard : Bool → Bool → ModifierSnapshot → Bool
v1_keysym_needs_modifier_guard is_unmapped commit_string_functional raw_mods =
    not is_unmapped && not commit_string_functional && any_mods raw_mods

unfoldable pub forward_backspace_needs_modifier_guard : ℕ → ModifierSnapshot → Bool
forward_backspace_needs_modifier_guard key_code raw_mods = key_code == 14 && any_mods raw_mods

-- The masks while a guard is on: those of the user are off, and the group is kept.
abbrev pub cleared : ModifierSnapshot → ModifierSnapshot
cleared m = record { depressed = 0; latched = 0; locked = 0; group = m.group }

-- `char_to_emit(c).is_some()`; it does not panic.
abbrev pub has_key : Emit → Bool
has_key (emit _) = true
has_key _ = false

-- The keysym to send: a legacy one past Latin-1 gives way to the Unicode encoding.
unfoldable pub unicode_keysym : ℕ → ℕ → ℕ
unicode_keysym raw c = if ltb 0xff raw && ltb raw 0x1000000 then bit_or 0x1000000 c else raw

module _ {K : Type 0} where
  abbrev pub vk_emitter : KeyEmitter (AdapterState K)
  vk_emitter = record {
    emit_key = λ s time key value. send (vk_key time key value) s;
    emit_modifiers = λ s m. send (vk_modifiers m) s;
    modifier_echo_through_grab = true;
  }

  abbrev pub ctx_emitter : ℕ → KeyEmitter (AdapterState K)
  ctx_emitter serial = record {
    emit_key = λ s time key value. send (ctx_key serial time key value) s;
    emit_modifiers = λ s m. send (ctx_modifiers serial m) s;
    modifier_echo_through_grab = true;
  }

  abbrev pub forward_emitter : ImProtocol → ℕ → KeyEmitter (AdapterState K)
  forward_emitter im_v2 serial = vk_emitter
  forward_emitter im_v1 serial = ctx_emitter serial

  unfoldable pub delete_text : ImProtocol → ℕ → ℕ → AdapterState K → AdapterState K
  delete_text im_v2 before_bytes after_bytes s =
      send (im_delete_surrounding before_bytes after_bytes) s
  delete_text im_v1 before_bytes after_bytes s =
      send (ctx_delete_surrounding (neg_i32 before_bytes) (u32 (before_bytes + after_bytes))) s

  unfoldable pub commit_text : ImProtocol → ℕ → Text → AdapterState K → AdapterState K
  commit_text im_v2 serial t s = send (im_commit_string t) s
  commit_text im_v1 serial t s = send (ctx_commit_string serial t) s

  unfoldable pub commit : ImProtocol → ℕ → AdapterState K → AdapterState K
  commit im_v2 serial s = record (send (im_commit serial) s) { pending_im_commit_ack = true }
  commit im_v1 serial s = s

module _ {K : Type 0} (p : SinkParams) where
  abbrev forward : KeyEmitter (AdapterState K)
  forward = forward_emitter p.protocol p.serial

  unfoldable pub vk_key_event : ℕ → ℕ → KeyState → AdapterState K → AdapterState K
  unfolding forward_backspace_needs_modifier_guard
  vk_key_event time key_code pressed s =
      let guarded =
        if forward_backspace_needs_modifier_guard key_code p.raw_mods
        then forward.emit_modifiers s (cleared p.raw_mods)
        else s in
      forward.emit_key guarded time key_code 1
  vk_key_event time key_code released s =
      let emitted = forward.emit_key s time key_code 0 in
      if forward_backspace_needs_modifier_guard key_code p.raw_mods
      then forward.emit_modifiers emitted p.raw_mods
      else emitted

  -- `emit_char` with the counters of the adapter.
  unfoldable pub emit_on_vk : ℕ → ℕ → ℕ → AdapterState K → AdapterState K × Bool
  emit_on_vk time c now s =
      let params : EmitCharParams = record {
        raw_mods = p.raw_mods;
        held_user_kc = p.held_user_kc;
        time = time;
        c = c;
      } in
      let ((s', mods), done) = emit_char vk_emitter params now (s, s.synthetic_mods) in
      (record s' { synthetic_mods = mods }, done)

  unfoldable pub commit_char : ImProtocol → ℕ → ℕ → ℕ → AdapterState K → AdapterState K × Bool
  unfolding emit_on_vk
  commit_char im_v2 time c now s = emit_on_vk time c now s
  commit_char im_v1 time c now s = (s, false)

module _ {K : Type 0} (lib : Xkbcommon K) (flush : List Request → Bool) (p : SinkParams)
    (now : ℕ) where
  -- The characters outside the synthetic keymap, in one commit at the end.
  unfoldable pub commit_rest : ℕ → Text → AdapterState K → AdapterState K
  unfolding commit_text commit
  commit_rest serial rest s =
      if is_empty rest then s else commit p.protocol serial (commit_text p.protocol p.serial rest s)

  -- The loop of `commit_via_keysym` on version 2, with the characters to fall back on so far.
  unfoldable pub keys_loop : ℕ → ℕ → Text → Text → AdapterState K → AdapterState K
  unfolding commit_char commit_rest
  keys_loop serial time [] rest s = commit_rest serial rest s
  keys_loop serial time (c ∷ cs) rest s =
      let (s', done) = commit_char p p.protocol time c now s in
      if done && not (flush s'.sent)
      then s'
      else keys_loop serial time cs (if done then rest else rest ++ c ∷ []) s'

  -- The keycode of a character, if there is a keymap and it has one.
  abbrev pub keycode_of : Option K → ℕ → Option ℕ
  unfolding char_to_keycode
  keycode_of none c = none
  keycode_of (some k) c = char_to_keycode lib k c

  abbrev release_held : Option ℕ → ℕ → AdapterState K → AdapterState K
  release_held none time s = s
  release_held (some kc) time s =
      if is_held p.held_user_kc kc then send (ctx_key p.serial time kc 0) s else s

  abbrev is_unmapped : Option ℕ → Bool
  is_unmapped none = true
  is_unmapped (some _) = false

  abbrev pub guarded : Bool → ModifierSnapshot → AdapterState K → AdapterState K
  guarded on m s = if on then send (ctx_modifiers p.serial m) s else s

  -- One character on the keysym channel, between the halves of its guard.
  unfoldable pub send_keysym : ℕ → ℕ → ℕ → Bool → AdapterState K → AdapterState K
  send_keysym serial time sym guard s = guarded guard p.raw_mods (
      send (ctx_keysym serial time sym 0)
        (send (ctx_keysym serial time sym 1) (guarded guard (cleared p.raw_mods) s)))

  -- The loop of `commit_via_keysym_v1`; false where a character has no keysym.
  unfoldable pub keysym_loop : ℕ → ℕ → Text → AdapterState K → AdapterState K × Bool
  unfolding send_keysym unicode_keysym v1_keysym_needs_modifier_guard
  keysym_loop serial time [] s = (s, true)
  keysym_loop serial time (c ∷ cs) s =
      let kc = keycode_of s.xkb c in
      let freed = release_held kc time s in
      let sym = unicode_keysym (lib.utf32_to_keysym c) c in
      let guard =
        v1_keysym_needs_modifier_guard (is_unmapped kc) p.commit_string_functional p.raw_mods in
      let sent = send_keysym serial time sym guard freed in
      let rest = keysym_loop serial time cs sent in
      if sym == 0 then (freed, false) else if flush sent.sent then rest else (sent, true)

  unfoldable pub commit_via_keysym :
      ImProtocol → ℕ → ℕ → Text → AdapterState K → AdapterState K × Bool
  unfolding keys_loop keysym_loop
  commit_via_keysym im_v2 serial time t s =
      if p.commit_string_functional then (s, false) else (keys_loop serial time t [] s, true)
  commit_via_keysym im_v1 serial time t s = keysym_loop serial time t s

  -- The loop of `commit_key_channel_text` on version 2.
  unfoldable pub channel_loop : ℕ → Text → AdapterState K → AdapterState K × Bool
  unfolding commit_char
  channel_loop time [] s = (s, true)
  channel_loop time (c ∷ cs) s =
      let (s', done) = commit_char p p.protocol time c now s in
      let rest = channel_loop time cs s' in
      if not done then (s', false) else if flush s'.sent then rest else (s', true)

  unfoldable pub commit_key_channel_text :
      ImProtocol → ℕ → ℕ → Text → AdapterState K → AdapterState K × Bool
  unfolding channel_loop keysym_loop char_to_emit
  commit_key_channel_text im_v2 serial time t s =
      if all (λ c. has_key (char_to_emit c)) t then channel_loop time t s else (s, false)
  commit_key_channel_text im_v1 serial time t s = keysym_loop serial time t s

  -- The implementation of `OutputSink`.
  abbrev pub adapter_sink : OutputSink (AdapterState K)
  unfolding delete_text commit_text commit vk_key_event commit_char commit_via_keysym
      commit_key_channel_text
  adapter_sink = record {
    delete_surrounding_text = λ s bb bc ab ac. delete_text p.protocol bb ab s;
    commit_string = λ s t. commit_text p.protocol p.serial t s;
    commit = λ s serial. commit p.protocol serial s;
    vk_key = λ s time key state. vk_key_event p time key state s;
    vk_modifiers = λ s d la lo g.
        (forward p).emit_modifiers s
          (record { depressed = d; latched = la; locked = lo; group = g });
    vk_commit_char = λ s time c. commit_char p p.protocol time c now s;
    commit_via_keysym = λ s serial time t. commit_via_keysym p.protocol serial time t s;
    commit_key_channel_text = λ s serial time t. commit_key_channel_text p.protocol serial time t s;
  }
