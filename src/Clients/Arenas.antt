-- ===== src/Clients/Arenas.antt =====
-- The calls of a client that concern arenas: jevmalloc/src/arena.rs and arenas.rs.
use jevmalloc.Prelude.{ℕ}
use jevmalloc.System.{System, Action}
use jevmalloc.Ctl.Caching.{IsStable}
use jevmalloc.Ctl.Blindness.{IsBlind, read-IsBlind, exchange-IsBlind}
use jevmalloc.System.{usize_bytes}
use jevmalloc.Extent.Hooks.{RawExtentHooks, Static}
use jevmalloc.Arena.Handle.{Arena}
use jevmalloc.Arena.Handle
use jevmalloc.Arena.Controls
use jevmalloc.Arena.Dss.{Dss}
use jevmalloc.Arena.Blindness
use jevmalloc.Arena.Blindness.Texts
use jevmalloc.Arena.Blindness.Destruction
use jevmalloc.Arenas
use jevmalloc.Arenas.Blindness as AllBlindness
use jevmalloc.Clients.Answers.{
  Answer, number, flag, text, arena, precedence, mode, arena_ended, no_value, answered,
  answered-IsBlind,
}

-- The calls on one arena. A pointer to a string is its address.
pub data ArenaCall : Type 0 where
  create current : ArenaCall
  create_with_hooks : Static RawExtentHooks → ArenaCall
  lookup : ℕ → ArenaCall
  set_current decay purge trim reset name dss dirty_decay muzzy_decay : Arena → ArenaCall
  retain_grow_limit extent_hooks try_destroy drop : Arena → ArenaCall
  set_name set_dirty_decay set_muzzy_decay set_retain_grow_limit : Arena → ℕ → ArenaCall
  set_dss : Arena → Dss → ArenaCall
  set_hooks : Arena → Static RawExtentHooks → ArenaCall

-- The calls on all arenas.
pub data AllCall : Type 0 where
  purge_all decay_all trim_all all_dss all_dirty_decay all_muzzy_decay : AllCall
  limit quantum percpu_mode is_affine is_percpu is_phycpu : AllCall
  set_all_dirty_decay set_all_muzzy_decay : ℕ → AllCall
  set_all_dss : Dss → AllCall

module _ {W : Type 0} (s : System W) where
  unfoldable pub perform_arena : ArenaCall → Action W Answer
  perform_arena create = answered arena (Handle.create s)
  perform_arena current = answered arena (Handle.current s)
  perform_arena (create_with_hooks h) = answered arena (Controls.create_with_raw_extent_hooks s h)
  perform_arena (lookup allocation) = answered arena (Handle.lookup s allocation)
  perform_arena (set_current a) = answered arena (Handle.set_current s a)
  perform_arena (decay a) = answered no_value (Controls.decay s a)
  perform_arena (purge a) = answered no_value (Controls.purge s a)
  perform_arena (trim a) = answered no_value (Controls.trim s a)
  perform_arena (reset a) = answered no_value (Controls.reset s a)
  perform_arena (name a) = answered text (Controls.name s a)
  perform_arena (dss a) = answered precedence (Controls.dss s a)
  perform_arena (dirty_decay a) = answered number (Controls.dirty_decay s a)
  perform_arena (muzzy_decay a) = answered number (Controls.muzzy_decay s a)
  perform_arena (retain_grow_limit a) = answered number (Controls.retain_grow_limit s a)
  perform_arena (extent_hooks a) = answered number (Controls.extent_hooks s a)
  perform_arena (try_destroy a) = answered arena_ended (Destruction.attempted s a)
  perform_arena (drop a) = answered no_value (Destruction.dropped s a)
  perform_arena (set_name a address) = answered no_value (Controls.set_name s a address)
  perform_arena (set_dirty_decay a v) = answered number (Controls.set_dirty_decay s a v)
  perform_arena (set_muzzy_decay a v) = answered number (Controls.set_muzzy_decay s a v)
  perform_arena (set_retain_grow_limit a v) = answered number (Controls.set_retain_grow_limit s a v)
  perform_arena (set_dss a v) = answered precedence (Controls.set_dss s a v)
  perform_arena (set_hooks a h) = answered number (Controls.set_raw_extent_hooks s a h)

  unfoldable pub perform_all : AllCall → Action W Answer
  perform_all purge_all = answered no_value (Arenas.purge s)
  perform_all decay_all = answered no_value (Arenas.decay s)
  perform_all trim_all = answered no_value (Arenas.trim s)
  perform_all all_dss = answered precedence (Arenas.dss s)
  perform_all all_dirty_decay = answered number (Arenas.dirty_decay s)
  perform_all all_muzzy_decay = answered number (Arenas.muzzy_decay s)
  perform_all limit = answered number (Arenas.limit s)
  perform_all quantum = answered number (Arenas.quantum s)
  perform_all percpu_mode = answered mode (Arenas.percpu_mode s)
  perform_all is_affine = answered flag (Arenas.is_affine s)
  perform_all is_percpu = answered flag (Arenas.is_percpu s)
  perform_all is_phycpu = answered flag (Arenas.is_phycpu s)
  perform_all (set_all_dirty_decay v) = answered number (Arenas.set_dirty_decay s v)
  perform_all (set_all_muzzy_decay v) = answered number (Arenas.set_muzzy_decay s v)
  perform_all (set_all_dss v) = answered precedence (Arenas.set_dss s v)

  module _ (st : IsStable s) where
    pub perform_arena-IsBlind : (c : ArenaCall) → IsBlind s (perform_arena c)
    unfolding perform_arena Controls.dirty_decay Controls.muzzy_decay Controls.retain_grow_limit
        Controls.set_dirty_decay Controls.set_muzzy_decay Controls.set_retain_grow_limit
    perform_arena-IsBlind create = answered-IsBlind s arena _ (Blindness.create-IsBlind s st)
    perform_arena-IsBlind current = answered-IsBlind s arena _ (Blindness.current-IsBlind s st)
    perform_arena-IsBlind (create_with_hooks h) =
        answered-IsBlind s arena _ (Texts.create_with_raw_extent_hooks-IsBlind s st h)
    perform_arena-IsBlind (lookup allocation) =
        answered-IsBlind s arena _ (Blindness.lookup-IsBlind s st allocation)
    perform_arena-IsBlind (set_current a) =
        answered-IsBlind s arena _ (Blindness.set_current-IsBlind s st a)
    perform_arena-IsBlind (decay a) = answered-IsBlind s no_value _ (Blindness.decay-IsBlind s st a)
    perform_arena-IsBlind (purge a) = answered-IsBlind s no_value _ (Blindness.purge-IsBlind s st a)
    perform_arena-IsBlind (trim a) = answered-IsBlind s no_value _ (Blindness.trim-IsBlind s st a)
    perform_arena-IsBlind (reset a) = answered-IsBlind s no_value _ (Blindness.reset-IsBlind s st a)
    perform_arena-IsBlind (name a) = answered-IsBlind s text _ (Texts.name-IsBlind s st a)
    perform_arena-IsBlind (dss a) = answered-IsBlind s precedence _ (Texts.dss-IsBlind s st a)
    perform_arena-IsBlind (dirty_decay a) =
        answered-IsBlind s number _ (Blindness.get_word-IsBlind s st "arena.0.dirty_decay_ms" a)
    perform_arena-IsBlind (muzzy_decay a) =
        answered-IsBlind s number _ (Blindness.get_word-IsBlind s st "arena.0.muzzy_decay_ms" a)
    perform_arena-IsBlind (retain_grow_limit a) =
        answered-IsBlind s number _ (Blindness.get_word-IsBlind s st "arena.0.retain_grow_limit" a)
    perform_arena-IsBlind (extent_hooks a) =
        answered-IsBlind s number _ (Texts.extent_hooks-IsBlind s st a)
    perform_arena-IsBlind (try_destroy a) =
        answered-IsBlind s arena_ended _ (Destruction.attempted-IsBlind s st a)
    perform_arena-IsBlind (drop a) =
        answered-IsBlind s no_value _ (Destruction.dropped-IsBlind s st a)
    perform_arena-IsBlind (set_name a address) =
        answered-IsBlind s no_value _ (Texts.set_name-IsBlind s st a address)
    perform_arena-IsBlind (set_dirty_decay a v) =
        answered-IsBlind s number _ (Blindness.xchg_word-IsBlind s st "arena.0.dirty_decay_ms" a v)
    perform_arena-IsBlind (set_muzzy_decay a v) =
        answered-IsBlind s number _ (Blindness.xchg_word-IsBlind s st "arena.0.muzzy_decay_ms" a v)
    perform_arena-IsBlind (set_retain_grow_limit a v) =
        answered-IsBlind s number _
          (Blindness.xchg_word-IsBlind s st "arena.0.retain_grow_limit" a v)
    perform_arena-IsBlind (set_dss a v) =
        answered-IsBlind s precedence _ (Texts.set_dss-IsBlind s st a v)
    perform_arena-IsBlind (set_hooks a h) =
        answered-IsBlind s number _ (Texts.set_raw_extent_hooks-IsBlind s st a h)

    pub perform_all-IsBlind : (c : AllCall) → IsBlind s (perform_all c)
    unfolding perform_all Arenas.dirty_decay Arenas.muzzy_decay Arenas.set_dirty_decay
        Arenas.set_muzzy_decay Arenas.quantum
    perform_all-IsBlind purge_all = answered-IsBlind s no_value _ (AllBlindness.purge-IsBlind s st)
    perform_all-IsBlind decay_all = answered-IsBlind s no_value _ (AllBlindness.decay-IsBlind s st)
    perform_all-IsBlind trim_all = answered-IsBlind s no_value _ (AllBlindness.trim-IsBlind s st)
    perform_all-IsBlind all_dss = answered-IsBlind s precedence _ (AllBlindness.dss-IsBlind s st)
    perform_all-IsBlind all_dirty_decay =
        answered-IsBlind s number _ (read-IsBlind s st (usize_bytes s.arch) "arenas.dirty_decay_ms")
    perform_all-IsBlind all_muzzy_decay =
        answered-IsBlind s number _ (read-IsBlind s st (usize_bytes s.arch) "arenas.muzzy_decay_ms")
    perform_all-IsBlind limit = answered-IsBlind s number _ (AllBlindness.limit-IsBlind s st)
    perform_all-IsBlind quantum =
        answered-IsBlind s number _ (read-IsBlind s st (usize_bytes s.arch) "arenas.quantum")
    perform_all-IsBlind percpu_mode =
        answered-IsBlind s mode _ (AllBlindness.percpu_mode-IsBlind s st)
    perform_all-IsBlind is_affine = answered-IsBlind s flag _ (AllBlindness.is_affine-IsBlind s st)
    perform_all-IsBlind is_percpu = answered-IsBlind s flag _ (AllBlindness.is_percpu-IsBlind s st)
    perform_all-IsBlind is_phycpu = answered-IsBlind s flag _ (AllBlindness.is_phycpu-IsBlind s st)
    perform_all-IsBlind (set_all_dirty_decay v) =
        answered-IsBlind s number _
          (exchange-IsBlind s st (usize_bytes s.arch) "arenas.dirty_decay_ms" v)
    perform_all-IsBlind (set_all_muzzy_decay v) =
        answered-IsBlind s number _
          (exchange-IsBlind s st (usize_bytes s.arch) "arenas.muzzy_decay_ms" v)
    perform_all-IsBlind (set_all_dss v) =
        answered-IsBlind s precedence _ (AllBlindness.set_dss-IsBlind s st v)
