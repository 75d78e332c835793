-- ===== src/Keys/Sharing/Merge.antt =====
-- What a replica writes to the shared store, and what Publish of keys/shared.go leaves behind.
use tsjwt.Errors.{Error, Result, ok, err, is_ok, conflict}
use tsjwt.Prelude.{
  ltb, Bool-cases, In, text_eq_iff, text_eq, ◌≤◌, ◌≡◌, refl, ◌≢◌, ◌↔◌, ◌⊎◌, inl, inr, List, [], ◌∷◌,
  ◌++◌, arith, Text, ap, false, ℕ, zero, suc, sym, Bool, true,
}
use mathlib.Core.Path.{subst}
use tsjwt.Prelude.Sort.{In-sort, sort-In}
use tsjwt.GoTime.{Instant, add_time}
use tsjwt.Crypto.{Crypto}
use tsjwt.Keys.Sharing.{
  Entry, Published, kept_entries, entry_less, mine_now, next_entries, Attempt, save_next,
  publish_once, after_attempt, publish_loop, publish,
}

pub In-append_split : {A : Type 0} (x : A) (xs ys : List A) → In x (xs ++ ys) ↔ (In x xs ⊎ In x ys)
In-append_split x [] ys = ground arith
In-append_split x (z ∷ xs) ys = ground (arith, In-append_split x xs ys)

module _ (c : Crypto) where
  -- A stored entry that a replica leaves in the store: another replica's, within lease and grace.
  pub record IsKept (p : Published c) (now : Instant) (stored : List Entry) (e : Entry)
      : Type 0 where
    pub was_stored : In e stored
    pub of_peer : e.replica ≢ p.replica
    pub in_grace : now ≤ add_time e.lease p.grace

  IsKept-sound :
      (p : Published c) (now : Instant) (e : Entry) (stored : List Entry)
      → In e (kept_entries c p now stored)
      → IsKept p now stored e
  unfolding kept_entries
  IsKept-sound p now e [] i = absurd i
  IsKept-sound p now e (d ∷ stored) i = elim (Bool-cases (text_eq d.replica p.replica)) [
    | inl own ↦ wider (IsKept-sound p now e stored (rw own at i))
    | inr peer ↦ elim (Bool-cases (ltb (add_time d.lease p.grace) now)) [
      | inl late ↦ wider (IsKept-sound p now e stored (rw (peer, late) at i))
      | inr live ↦
          let split_in : (d ≡ e) ⊎ In e (kept_entries c p now stored) = rw (peer, live) at i in
          elim split_in [
            | inl here ↦ subst (IsKept p now (d ∷ stored)) here (record {
              was_stored = inl refl;
              of_peer = λ same. cc (peer, (text_eq_iff d.replica p.replica).1 same);
              in_grace = ground arith;
            })
            | inr later ↦ wider (IsKept-sound p now e stored later)
          ]
    ]
  ]
    where
      wider : IsKept p now stored e → IsKept p now (d ∷ stored) e
      wider k = record { was_stored = inr k.was_stored; of_peer = k.of_peer; in_grace = k.in_grace }

  kept_complete :
      (p : Published c) (now : Instant) (e : Entry) (stored : List Entry)
      → IsKept p now stored e
      → In e (kept_entries c p now stored)
  unfolding kept_entries
  kept_complete p now e [] k = k.was_stored
  kept_complete p now e (d ∷ stored) k = elim k.was_stored [
    | inl here ↦
        let peer : text_eq d.replica p.replica ≡ false =
          ground (
            arith,
            k.of_peer,
            text_eq_iff d.replica p.replica,
            ap (λ (x : Entry). x.replica) here,
          ) in
        let live : ltb (add_time d.lease p.grace) now ≡ false =
          rw here (ground (arith, k.in_grace)) in
        rw (peer, live) (inl here)
    | inr later ↦
        let rest =
          kept_complete p now e stored
            (record { was_stored = later; of_peer = k.of_peer; in_grace = k.in_grace }) in
        ground (arith, rest)
  ]

  -- publishOnce leaves every entry of another replica that is within its lease and grace, replaces
  -- the replica's own entries by its keys of now, and writes nothing else.
  pub next_entries_iff :
      (p : Published c) (now : Instant) (stored : List Entry) (e : Entry)
      → In e (next_entries c p now stored) ↔ (IsKept p now stored e ⊎ In e (mine_now c p now))
  unfolding next_entries
  next_entries_iff p now stored e =
      let both = In-append_split e (kept_entries c p now stored) (mine_now c p now) in
      (
        λ i. elim (both.0 (In-sort entry_less e _ i)) [
          | inl k ↦ inl (IsKept-sound p now e stored k)
          | inr m ↦ inr m
        ],
        λ h.
            sort-In entry_less e _
              (both.1 (elim h [ inl k ↦ inl (kept_complete p now e stored k) | inr m ↦ inr m ])),
      )

  module _ {W : Type 0} (load : W → Result (List Entry × Text) × W)
      (save : W → List Entry → Text → Result (Unit {0}) × W) where
    -- The replica holds what a successful write put into the store: its next entries over what it
    -- had loaded in that attempt, under the version that it had loaded, by the same keys.
    pub record WasSaved (p p' : Published c) : Type 0 where
      pub now : Instant
      pub stored : List Entry
      pub version : Text
      pub start : W
      pub before : W
      pub loaded : load start ≡ (ok (stored, version), before)
      pub accepted : (save before p'.merged version).0 ≡ ok tt
      pub is_next : p'.merged ≡ next_entries c p now stored
      pub same_keys : p'.local ≡ p.local

    save_next-WasSaved :
        (p : Published c) (now : Instant) (start : W) (r : Result (List Entry × Text)) (w : W)
        → load start ≡ (r, w)
        → (save_next c load save p now r w).0 ≡ ok tt
        → WasSaved p (save_next c load save p now r w).1
    unfolding save_next
    save_next-WasSaved p now start (err e) w l h = cc
    save_next-WasSaved p now start (ok (stored, version)) w l h =
        let next = next_entries c p now stored in
        rw (h, is_ok)
          (record {
            now = now;
            stored = stored;
            version = version;
            start = start;
            before = w;
            loaded = l;
            accepted = h;
            is_next = refl;
            same_keys = refl;
          })

    save_next-same :
        (p : Published c) (now : Instant) (r : Result (List Entry × Text)) (w : W) (e : Error)
        → (save_next c load save p now r w).0 ≡ err e
        → (save_next c load save p now r w).1 ≡ p
    unfolding save_next
    save_next-same p now (err x) w e h = refl
    save_next-same p now (ok (stored, version)) w e h = rw (h, is_ok)

    after_attempt-WasSaved :
        (cancel : Bool) (again : Published c → W → Result (Unit {0}) × Published c × W)
        (p : Published c) (r : Result (Unit {0}) × Published c × W)
        → (r.0 ≡ ok tt → WasSaved p r.1)
        → ((e : Error) → r.0 ≡ err e → r.1 ≡ p)
        → ((w : W) → (again p w).0 ≡ ok tt → WasSaved p (again p w).1)
        → (after_attempt c load save cancel again r).0 ≡ ok tt
        → WasSaved p (after_attempt c load save cancel again r).1
    unfolding after_attempt
    after_attempt-WasSaved cancel again p (ok u, q, w) saved same next h = saved refl
    after_attempt-WasSaved true again p (err conflict, q, w) saved same next h = cc
    after_attempt-WasSaved false again p (err conflict, q, w) saved same next h =
        subst (λ (x : Published c). (again x w).0 ≡ ok tt → WasSaved p (again x w).1)
          (sym (same conflict refl)) (next w) h
    after_attempt-WasSaved cancel again p (err e, q, w) saved same next h = cc

    publish_loop-WasSaved :
        (left : ℕ) (attempt : ℕ → Attempt) (i : ℕ) (p : Published c) (w : W)
        → (publish_loop c load save left attempt i p w).0 ≡ ok tt
        → WasSaved p (publish_loop c load save left attempt i p w).1
    unfolding publish_loop publish_once
    publish_loop-WasSaved zero attempt i p w h = cc
    publish_loop-WasSaved (suc left) attempt i p w h =
        after_attempt-WasSaved (attempt i).cancelled (publish_loop c load save left attempt (suc i))
          p (publish_once c load save p (attempt i).now w)
          (save_next-WasSaved p (attempt i).now w (load w).0 (load w).1 refl)
          (save_next-same p (attempt i).now (load w).0 (load w).1)
          (λ w'. publish_loop-WasSaved left attempt (suc i) p w') h

    -- If Publish succeeds, after however many conflicts, the union that the replica then serves is
    -- exactly what the store accepted: its own keys over the entries loaded in that attempt.
    pub publish-WasSaved :
        (attempt : ℕ → Attempt) (p : Published c) (w : W)
        → (publish c load save attempt p w).0 ≡ ok tt
        → WasSaved p (publish c load save attempt p w).1
    unfolding publish
    publish-WasSaved attempt p w h = publish_loop-WasSaved 5 attempt 0 p w h
