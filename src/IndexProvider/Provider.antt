-- ===== src/IndexProvider/Provider.antt =====
-- The class `LexiconIndexProvider` of index_provider.py: the snapshot it keeps, the entries that
-- wait for the end of the debounce period, and its operations under the lock.
pub mod Store
pub mod Serve
use vocabulary_micro.Prelude.{
  ℕ, ◌-◌, ◌*◌, max, Bool, true, false, ◌&&◌, ◌||◌, not, Option, none, some, List, [], ◌∷◌, ◌++◌,
  leb, if◌then◌else◌, is_empty, ◌==◌, nat_equality, list_equality, pair_equality,
}
use vocabulary_micro.Text.{Text}
use vocabulary_micro.IndexProvider.{
  LexiconEntry, LexiconIndexSnapshot, build_snapshot, apply_entries_to_snapshot,
}

pub record LexiconIndexProvider : Type 0 where
  pub cached : Option LexiconIndexSnapshot
  pub rebuild_debounce : ℕ
  pub last_rebuild : ℕ
  pub pending_entries : List LexiconEntry
  pub pending_version : Option ℕ

-- `LexiconIndexProvider(...)`
abbrev new_provider : ℕ → LexiconIndexProvider
new_provider debounce = record {
  cached = none;
  rebuild_debounce = debounce;
  last_rebuild = 0;
  pending_entries = [];
  pending_version = none;
}

unfoldable pub can_rebuild : LexiconIndexProvider → ℕ → Bool
can_rebuild p now = leb p.rebuild_debounce 0 || leb p.rebuild_debounce (now - p.last_rebuild)

unfoldable pub invalidate : LexiconIndexProvider → LexiconIndexProvider
invalidate p = record {
  cached = none;
  rebuild_debounce = p.rebuild_debounce;
  last_rebuild = p.last_rebuild;
  pending_entries = [];
  pending_version = none;
}

-- `self._pending_version if self._pending_version is not None else self._snapshot.version`
abbrev pub version_or : Option ℕ → ℕ → ℕ
version_or none v = v
version_or (some w) v = w

-- `max(new_version, self._pending_version or new_version)`, where 0 counts as missing.
abbrev pub later_version : ℕ → Option ℕ → ℕ
later_version new_version none = max new_version new_version
later_version new_version (some w) = max new_version (if w == 0 then new_version else w)

module _ (is_letter : ℕ → Bool) (sha1 : Text → Text) where
  unfoldable pub maybe_apply_pending : LexiconIndexProvider → ℕ → Bool → LexiconIndexProvider
  maybe_apply_pending p now force = elim p.cached [
    | none ↦ p
    | some s ↦
        if is_empty p.pending_entries || not force && not (can_rebuild p now) then p else record {
          cached = some (
              apply_entries_to_snapshot is_letter sha1 s p.pending_entries
                (version_or p.pending_version s.version));
          rebuild_debounce = p.rebuild_debounce;
          last_rebuild = now;
          pending_entries = [];
          pending_version = none;
        }
  ]

  unfoldable pub apply_entry : LexiconIndexProvider → LexiconEntry → ℕ → ℕ → LexiconIndexProvider
  apply_entry p entry new_version now = elim p.cached [
    | none ↦ p
    | some s ↦
        if leb p.rebuild_debounce 0
        then record {
          cached = some (apply_entries_to_snapshot is_letter sha1 s (entry ∷ []) new_version);
          rebuild_debounce = p.rebuild_debounce;
          last_rebuild = p.last_rebuild;
          pending_entries = p.pending_entries;
          pending_version = p.pending_version;
        }
        else maybe_apply_pending
            (record {
              cached = some s;
              rebuild_debounce = p.rebuild_debounce;
              last_rebuild = p.last_rebuild;
              pending_entries = p.pending_entries ++ entry ∷ [];
              pending_version = some (later_version new_version p.pending_version);
            })
            now false
  ]

  -- The last part of `get_snapshot`: all entries are loaded and indexed.
  unfoldable pub rebuild :
      LexiconIndexProvider
      → ℕ
      → List LexiconEntry
      → ℕ
      → LexiconIndexProvider × LexiconIndexSnapshot × Bool
  rebuild p current_version entries now =
      let s = build_snapshot is_letter sha1 entries current_version in
      (
        record {
          cached = some s;
          rebuild_debounce = p.rebuild_debounce;
          last_rebuild = now;
          pending_entries = p.pending_entries;
          pending_version = p.pending_version;
        },
        s,
        false,
      )

  -- `serve` is `get_snapshot` behind the pending entries; `second` and `third` are its readings of
  -- the clock. The Boolean tells a snapshot that was kept from one that was built.
  unfoldable pub serve :
      LexiconIndexProvider
      → ℕ
      → List LexiconEntry
      → ℕ
      → ℕ
      → LexiconIndexProvider × LexiconIndexSnapshot × Bool
  serve p current_version entries second third = elim p.cached [
    | none ↦ rebuild p current_version entries third
    | some s ↦
        if s.version == current_version
        then (p, s, true)
        else if not (can_rebuild p second)
        then (p, s, true)
        else rebuild p current_version entries third
  ]

  unfoldable pub get_snapshot :
      LexiconIndexProvider
      → ℕ
      → List LexiconEntry
      → ℕ
      → ℕ
      → ℕ
      → LexiconIndexProvider × LexiconIndexSnapshot × Bool
  get_snapshot p current_version entries first second third =
      serve (maybe_apply_pending p first false) current_version entries second third
