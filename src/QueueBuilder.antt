-- ===== src/QueueBuilder.antt =====
-- backend/python_services/core/use_cases/async_sync_queue_builder.py: which queue the use case gets.
-- A queue of the persistent factory is of a type `Persistent`; the handler, the logger and the name
-- are passed on and left out, and so is the text of the log message.
use vocabulary_micro.Prelude.{
  ℕ, ◌≡◌, refl, Bool, true, false, ◌&&◌, Option, none, some, if◌then◌else◌, nat_equality,
  list_equality, pair_equality,
}
use vocabulary_micro.Text.{Text, codes, strip, or_else}

pub record QueueSettings : Type 0 where
  pub persistent_enabled : Bool
  pub queue_size : ℕ
  pub worker_count : ℕ

-- A queue of the factory, or the queue in memory with its size and number of workers.
pub data BuiltQueue (Persistent : Type 0) : Type 0 where
  persistent : Persistent → BuiltQueue Persistent
  in_memory : ℕ → ℕ → BuiltQueue Persistent

-- `sync_queue_factory` takes the settings and the label of the source.
pub record QueueBuilder (Persistent : Type 0) : Type 0 where
  pub queue_settings : QueueSettings
  pub source_label : Text
  pub factory : Option (QueueSettings → Text → Persistent)

module _ {Persistent : Type 0} where
  -- `__init__`
  unfoldable new_builder :
      QueueSettings → Text → Option (QueueSettings → Text → Persistent) → QueueBuilder Persistent
  new_builder settings label factory = record {
    queue_settings = settings;
    source_label = or_else (strip label) (codes "lexicon");
    factory = factory;
  }

  unfoldable pub persistent_queue_enabled : QueueBuilder Persistent → Bool
  persistent_queue_enabled b =
      b.queue_settings.persistent_enabled && elim b.factory [ none ↦ false | some f ↦ true ]

  -- `build`: the queue, and whether a message says that there is no factory.
  unfoldable build_queue : QueueBuilder Persistent → BuiltQueue Persistent × Bool
  build_queue b =
      let memory : BuiltQueue Persistent =
        in_memory b.queue_settings.queue_size b.queue_settings.worker_count in
      if b.queue_settings.persistent_enabled
      then elim b.factory [
        | none ↦ (memory, true)
        | some f ↦ (persistent (f b.queue_settings b.source_label), false)
      ]
      else (memory, false)

  abbrev is_persistent : BuiltQueue Persistent → Bool
  is_persistent (persistent q) = true
  is_persistent (in_memory n k) = false

  build_by :
      (enabled : Bool) (size workers : ℕ) (label : Text)
      (factory : Option (QueueSettings → Text → Persistent))
      → (let b : QueueBuilder Persistent = record {
        queue_settings = record {
          persistent_enabled = enabled;
          queue_size = size;
          worker_count = workers;
        };
        source_label = label;
        factory = factory;
      } in
          is_persistent (build_queue b).0 ≡ persistent_queue_enabled b)
  unfolding build_queue persistent_queue_enabled
  build_by true size workers label none = refl
  build_by true size workers label (some f) = refl
  build_by false size workers label factory = refl

  -- The queue that is built is of the factory exactly if the property persistent_queue_enabled says
  -- so.
  build_queue-persistent_queue_enabled :
      (b : QueueBuilder Persistent) → is_persistent (build_queue b).0 ≡ persistent_queue_enabled b
  build_queue-persistent_queue_enabled b =
      build_by b.queue_settings.persistent_enabled b.queue_settings.queue_size
        b.queue_settings.worker_count b.source_label b.factory
