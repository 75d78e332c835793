-- ===== src/K8sStore/Tests.antt =====
-- Runs of k8sstore/k8sstore.go over a small API server, and the theorems there.
use tsjwt.K8sStore.Server.{
  World, held_sample, write_sample, read_sample, answer, send_sample, store, api_sample,
}
use tsjwt.K8sStore.Publishing.{load_then, save_over, Merged, publish-Merged}
use tsjwt.GoTime.{minute, hour}
use tsjwt.Keys.Sharing.{Entry, Attempt, Published, publish}
use tsjwt.Keys.{thumbprint, Set}
use tsjwt.Samples.{sample_crypto}
use tsjwt.Prelude.{
  drop, Text, codes, text_eq, lookup, ℕ, ◌≡◌, refl, ap, none, some, [], ◌∷◌, sym, ◌∙◌,
  some-injective, pos, false, List,
}
use tsjwt.Errors.{other, Result, err, ok, conflict}
use tsjwt.K8sStore.{limit, load, save}

abbrev no_file : World → Text → Result Text
no_file w path = err other

abbrev set : Set sample_crypto
set = record {
  overlap = pos hour;
  current = some (record { kid = thumbprint sample_crypto 3; priv = 3; retires = 0 });
  retired = [];
}

abbrev peer : Entry
peer = record { kid = codes "p"; x = []; y = []; replica = codes "b"; lease = 500 }

abbrev published : Published sample_crypto
published = record {
  local = set;
  replica = codes "a";
  lease = pos minute;
  grace = pos hour;
  merged = [];
}

abbrev decode_sample : Text → Result (List Entry)
decode_sample t = ok (peer ∷ [])

abbrev encode_sample : List Entry → Result Text
encode_sample es = ok (codes "entries")

abbrev idle : World → World
idle w = w

-- Another replica writes between the read and the write of an attempt.
abbrev busy : World → World
busy w = some (codes "newer")

abbrev attempts : ℕ → Attempt
attempts i = record { now = 100; cancelled = false }

loaded_sample :
    (load no_file send_sample read_sample write_sample decode_sample encode_sample store
      (some (codes "old"))).0
    ≡ ok (peer ∷ [], codes "vold")
unfolding load answer text_eq limit lookup
loaded_sample = refl

stale_save :
    save no_file send_sample read_sample write_sample decode_sample encode_sample store
      (some (codes "newer"))
      []
      (codes "vold")
    ≡ (err conflict, some (codes "newer"))
unfolding save answer text_eq lookup
stale_save = refl

saved_sample :
    save no_file send_sample read_sample write_sample decode_sample encode_sample store
      (some (codes "old"))
      []
      (codes "vold")
    ≡ (ok tt, some (codes "entries"))
unfolding save answer text_eq lookup
saved_sample = refl

published_over :
    (publish sample_crypto
      (load_then no_file send_sample read_sample write_sample decode_sample encode_sample store
        held_sample api_sample idle)
      (save_over no_file send_sample read_sample write_sample decode_sample encode_sample store
        held_sample api_sample)
      attempts
      published
      (some (codes "old"))).0
    ≡ ok tt
unfolding publish load save answer text_eq limit lookup
published_over = refl

-- The first attempt meets a conflict, and the second reads what the other replica wrote.
retried :
    (publish sample_crypto
      (load_then no_file send_sample read_sample write_sample decode_sample encode_sample store
        held_sample api_sample busy)
      (save_over no_file send_sample read_sample write_sample decode_sample encode_sample store
        held_sample api_sample)
      attempts
      published
      (some (codes "old"))).0
    ≡ ok tt
unfolding publish load save answer text_eq limit lookup
retried = refl

version_fixes : (w : World) (v t : Text) → held_sample w ≡ some (v, t) → t ≡ drop 1 v
version_fixes none v t e = absurd (cc e)
version_fixes (some u) v t e =
    let same = some-injective e in
    sym (ap (λ (p : Text × Text). p.1) same) ∙ ap (λ (p : Text × Text). drop 1 p.0) same

publish-Merged_example :
    Merged no_file send_sample read_sample write_sample decode_sample encode_sample store
      held_sample api_sample sample_crypto published
      (publish sample_crypto
        (load_then no_file send_sample read_sample write_sample decode_sample encode_sample store
          held_sample api_sample idle)
        (save_over no_file send_sample read_sample write_sample decode_sample encode_sample store
          held_sample api_sample)
        attempts
        published
        (some (codes "old"))).1
publish-Merged_example =
    publish-Merged no_file send_sample read_sample write_sample decode_sample encode_sample store
      held_sample api_sample sample_crypto idle (drop 1) attempts published (some (codes "old"))
      version_fixes published_over
