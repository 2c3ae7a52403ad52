-- ===== src/Tests/Disks.antt =====
-- A chain on disk: one save that ends, and one that is interrupted.
use blockchain_messaging_pro.Common.{
  refl, ◌≡◌, ◌≤◌, ◌<◌, ◌⊎◌, true, false, some, [], ◌∷◌, Str, Result, ok, codes, length,
}
use blockchain_messaging_pro.Json.{Json, dumps}
use blockchain_messaging_pro.Chain.Mempool.{All}
use blockchain_messaging_pro.Chain.Storage.{to_dict}
use blockchain_messaging_pro.Chain.Saving.{Disk, Files, save}
use blockchain_messaging_pro.Chain.Saving.Atomic.{Consistent, Saved, NotSaved, save_atomic}
use blockchain_messaging_pro.Tests.{fresh, fresh-IsIndexed}

abbrev reads_fresh : Str → Result Json
reads_fresh t = ok (to_dict fresh)

abbrev old_files : Files
old_files = (codes "chain.json", codes "{}") ∷ (codes "wallet.json", codes "{}") ∷ []

-- the replacing fails
abbrev bad_disk : Disk
bad_disk = record {
  tmp_path = some (codes ".blockchain_1.tmp");
  written = 10000;
  replaces = false;
  unlinks = true;
}

save_atomic_example :
    let (after, before, outcome) =
      save (dumps false) bad_disk old_files (codes "chain.json") fresh in
    let text = dumps false (to_dict fresh) in
    let path = codes "chain.json" in
    let tmp = codes ".blockchain_1.tmp" in
    All (Consistent reads_fresh old_files path tmp fresh) (after ∷ before)
    × ((Saved reads_fresh path tmp fresh after outcome
          × (length text ≤ bad_disk.written)
          × (bad_disk.replaces ≡ true))
        ⊎ (NotSaved reads_fresh bad_disk old_files path tmp after outcome
            × ((bad_disk.written < length text) ⊎ (bad_disk.replaces ≡ false))))
save_atomic_example =
    save_atomic (dumps false) reads_fresh bad_disk old_files (codes "chain.json")
      (codes ".blockchain_1.tmp") fresh refl (λ e. cc) fresh-IsIndexed refl
