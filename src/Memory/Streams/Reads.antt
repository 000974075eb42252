-- ===== src/Memory/Streams/Reads.antt =====
-- `read_stream` of src/memory.rs against `write_stream`, the close sentinel and offsets.
use durare.Prelude.{
  ℤ, pos, ℕ, zero, suc, ◌≤◌, true, false, String, Option, none, some, List, [], ◌∷◌, ◌++◌, ◌≡◌,
  refl, string_eq, pair_eq, arith, drop, any, length, format,
}
use durare.Map
use durare.Map.Laws.{get-insert_self}
use durare.Errors.{Error, ok, err, app_error}
use durare.Host.{Host}
use durare.Memory.{Inner, append_stream, or_default}
use durare.Recorded.{is_none}
use durare.Memory.Streams.{write_stream, read_stream, read_entries}

module _ {V : Type 0} where
  read_entries-push :
      (v : V) (l : List (Option V))
      → any is_none l ≡ false
      → read_entries (l ++ some v ∷ []) ≡ ((read_entries l).0 ++ v ∷ [], false)
  unfolding read_entries any
  read_entries-push v [] h = refl
  read_entries-push v (none ∷ l) h = cc
  read_entries-push v (some w ∷ l) h = ground (arith, read_entries-push v l h)

  read_entries-close :
      (l : List (Option V))
      → any is_none l ≡ false
      → read_entries (l ++ none ∷ []) ≡ ((read_entries l).0, true)
  unfolding read_entries any
  read_entries-close [] h = refl
  read_entries-close (none ∷ l) h = cc
  read_entries-close (some w ∷ l) h = ground (arith, read_entries-close l h)

  read_entries-drop :
      (n : ℕ) (l : List (Option V))
      → n ≤ length (read_entries l).0
      → read_entries (drop n l) ≡ (drop n (read_entries l).0, (read_entries l).1)
  unfolding read_entries
  read_entries-drop zero l h = refl
  read_entries-drop (suc n) [] h = refl
  read_entries-drop (suc n) (none ∷ l) h = absurd (omega arith)
  read_entries-drop (suc n) (some v ∷ l) h = read_entries-drop n l (omega arith)

  drop-nil : (n : ℕ) → drop {A = Option V} n [] ≡ []
  drop-nil zero = refl
  drop-nil (suc n) = refl

  abbrev entries : String → String → Inner V → List (Option V)
  entries w k g = or_default (Map.get (w, k) g.streams)

  read_stream-entries :
      (w k : String) (n : ℕ) (g : Inner V)
      → read_stream w k (pos n) g ≡ read_entries (drop n (entries w k g))
  unfolding read_stream read_entries
  read_stream-entries w k n g = ground (arith, drop-nil n)

  -- A read from an offset that the reader has reached returns the rest of the whole read.
  pub read_stream-drop :
      (w k : String) (n : ℕ) (g : Inner V)
      → n ≤ length (read_stream w k (pos 0) g).0
      → read_stream w k (pos n) g
        ≡ (drop n (read_stream w k (pos 0) g).0, (read_stream w k (pos 0) g).1)
  read_stream-drop w k n g h = ground (
    arith,
    read_stream-entries w k n g,
    read_stream-entries w k 0 g,
    read_entries-drop n (entries w k g),
  )

module _ {V : Type 0} ⦃j : Host V⦄ where
  -- A write that succeeds appends: a value is read at the end of what was read before, and a close
  -- seals the stream without changing its values.
  pub read_stream-write_stream :
      (w k : String) (value : Option V) (f : ℤ) (g g' : Inner V)
      → write_stream w k value f g ≡ (ok tt, g')
      → read_stream w k (pos 0) g' ≡ (elim value [
        | some v ↦ ((read_stream w k (pos 0) g).0 ++ v ∷ [], false)
        | none ↦ ((read_stream w k (pos 0) g).0, true)
      ])
  unfolding write_stream append_stream
  read_stream-write_stream w k (some v) f g g' h = ground (
    arith,
    read_stream-entries w k 0 g,
    read_stream-entries w k 0 g',
    get-insert_self (w, k) (entries w k g ++ some v ∷ []) g.streams,
    read_entries-push v (entries w k g),
  )
  read_stream-write_stream w k none f g g' h = ground (
    arith,
    read_stream-entries w k 0 g,
    read_stream-entries w k 0 g',
    get-insert_self (w, k) (entries w k g ++ none ∷ []) g.streams,
    read_entries-close (entries w k g),
  )

  any-none_read : (l : List (Option V)) → (read_entries l).1 ≡ true → any is_none l ≡ true
  unfolding read_entries any
  any-none_read [] h = cc
  any-none_read (none ∷ l) h = refl
  any-none_read (some v ∷ l) h = ground (arith, any-none_read l)

  -- A stream that reads as closed refuses every write, and is left as it was.
  pub write_stream-closed :
      (w k : String) (value : Option V) (f : ℤ) (g : Inner V)
      → (read_stream w k (pos 0) g).1 ≡ true
      → (e : Error V) × (write_stream w k value f g ≡ (err e, g))
  unfolding write_stream append_stream
  write_stream-closed w k value f g h = (
    app_error (format ("stream `" ∷ k ∷ "` is already closed" ∷ [])),
    ground (arith, read_stream-entries w k 0 g, any-none_read (entries w k g)),
  )
