-- ===== src/Mount/Pool.antt =====
-- Whenever the file system is mounted, the preallocation list is a pool of blocks.
use flog_fs.Base.{ℕ, if◌then◌else◌, not, ◌≡◌, refl, sym, subst, inl, inr}
use flog_fs.Structs.{FlogResult, success, failure, succeeded, FlogState, reset, mounted}
use flog_fs.Prealloc.{Prealloc, flog_prealloc_initialize}
use flog_fs.Prealloc.Pool.{IsPool, flog_prealloc_initialize-IsPool}
use flog_fs.Fs.{Fs, Params, on_prealloc}
use flog_fs.Alloc.{flog_prealloc_prime}
use flog_fs.Alloc.Stable.{IsStable}
use flog_fs.Alloc.Pool.{
  Pooled, on_chip-Pooled, modify-Pooled, flog_close_sector-Pooled, flog_open_page-Pooled,
  flog_block_statistics_read-Pooled, flog_prealloc_prime-Pooled, flog_allocate_block-Pooled,
}
use flog_fs.Alloc.Held.{Any, Never}
use flog_fs.Mount.{flogfs_initialize, flogfs_mount, fresh_mount, mount_table, mount_primed}
use flog_fs.Mount.Keeps.{mount_table-Keeps, fresh_mount_lem}
use flog_fs.Run.{Run, ok, panic, out_of_fuel, Cmd, lift, modify, pure, ◌>>=◌, ◌>>◌}
use flog_fs.Run.Keeps.{Holds, holds, stopped, spent, Keeps, Holds-mono, Holds-and_then, keeps_rules}

abbrev IsReset : FlogState → Type 0
IsReset st = st ≡ reset

-- The lists are a pool, or the file system is not mounted.
abbrev PooledIfMounted : ℕ → Fs → Type 0
PooledIfMounted n = Pooled n Any IsReset

abbrev pub MountedPool : Fs → Type 0
MountedPool s = PooledIfMounted s.params.number_of_blocks s

-- Whatever keeps the pool of a device of any size keeps that of the device at hand.
MountedPool-Keeps :
    {A : Type 0} {m : Cmd Fs A} → ((n : ℕ) → Keeps (PooledIfMounted n) m) → Keeps MountedPool m
MountedPool-Keeps keep = record {
  at = λ s h. Holds-mono (λ t v. subst (λ k. PooledIfMounted k t) (sym v.size) v) ((keep _).at s h);
}

resetting : (n : ℕ) → Keeps (PooledIfMounted n) (modify (λ s. record s { state = reset }))
resetting n = record { at = λ s h. holds (record { size = h.size; pool = inl refl }) }

pub MountedPool-IsStable : IsStable MountedPool
MountedPool-IsStable = record {
  chip = λ m _. MountedPool-Keeps (λ n. on_chip-Pooled n Any IsReset m);
  minor = λ f e. MountedPool-Keeps (λ n. modify-Pooled n Any IsReset f e.prealloc e.params e.state);
  resetting = MountedPool-Keeps resetting;
  open_page = λ block page.
      MountedPool-Keeps (λ n. flog_open_page-Pooled n Any IsReset block (λ _ q. q) page);
  close_sector = MountedPool-Keeps (λ n. flog_close_sector-Pooled n Any IsReset);
  behind = λ block s h.
      (MountedPool-Keeps (λ n. flog_block_statistics_read-Pooled n Any IsReset block (λ _ q. q))).at
        _ (record { size = h.size; pool = h.pool });
  prime = MountedPool-Keeps (λ n. flog_prealloc_prime-Pooled n Any IsReset (λ _ _ _ _ _ q. q));
  allocate =
      MountedPool-Keeps
        (λ n. flog_allocate_block-Pooled n Any IsReset (λ _ _ _ _ _ q. q) (λ _ _ _ q. q));
}

-- Setting the lists up makes them a pool, whatever they were.
initialized_lists :
    (n : ℕ) (s : Fs)
    → s.params.number_of_blocks ≡ n
    → Holds (Pooled n Any Never) (on_prealloc flog_prealloc_initialize s)
initialized_lists n s size =
    lifted (flog_prealloc_initialize s.prealloc)
      (flog_prealloc_initialize-IsPool n Any tt s.prealloc)
  where
    lifted :
        (r : Run Prealloc (Unit {0}))
        → Holds (IsPool n Any) r
        → Holds (Pooled n Any Never) (lift (λ (t : Fs) p. record t { prealloc = p }) r s)
    lifted (ok a p) (holds v) = holds (record { size = size; pool = inr v })
    lifted panic stopped = stopped
    lifted out_of_fuel spent = spent

mounting : (n : ℕ) → Keeps (Pooled n Any Never) (modify (λ s. record s { state = mounted }))
mounting n = record {
  at = λ s h. elim h.pool [
    | inl r ↦ absurd r
    | inr v ↦ holds (record { size = h.size; pool = inr v })
  ];
}

primed : (n : ℕ) → Keeps (Pooled n Any Never) flog_prealloc_prime
primed n = flog_prealloc_prime-Pooled n Any Never (λ _ _ _ _ _ q. q)

-- what follows once the lists are set up
finish : Cmd Fs FlogResult
finish = flog_prealloc_prime >>= λ primed.
    if not (succeeded primed)
    then pure failure
    else modify (λ s. record s { state = mounted }) >> pure success

finish-Pooled : (n : ℕ) → Keeps (Pooled n Any Never) finish
unfolding finish
finish-Pooled n = search (keeps_rules, primed, mounting) depth 20

mount_primed-Pooled :
    (n : ℕ) (s : Fs) → s.params.number_of_blocks ≡ n → Holds (Pooled n Any Never) (mount_primed s)
unfolding mount_primed finish
mount_primed-Pooled n s size =
    Holds-and_then {k = λ _. finish} (initialized_lists n s size) (λ _. finish-Pooled n)

mount_primed-MountedPool : Keeps MountedPool mount_primed
mount_primed-MountedPool = record {
  at = λ s h.
      Holds-mono
        (λ t v. record {
          size = refl;
          pool = elim v.pool [
            | inl r ↦ absurd r
            | inr p ↦ inr (subst (λ k. IsPool k Any t.prealloc) (sym v.size) p)
          ];
        })
        (mount_primed-Pooled s.params.number_of_blocks s refl);
}

fresh_mount-MountedPool : Keeps MountedPool (modify fresh_mount)
fresh_mount-MountedPool = MountedPool-Keeps (λ n.
    modify-Pooled n Any IsReset fresh_mount (λ s. (fresh_mount_lem s).prealloc)
      (λ s. (fresh_mount_lem s).params) (λ s. (fresh_mount_lem s).state))

mount_table-MountedPool : Keeps MountedPool mount_table
mount_table-MountedPool = mount_table-Keeps MountedPool-IsStable

pub flogfs_mount-MountedPool : Keeps MountedPool flogfs_mount
unfolding flogfs_mount
flogfs_mount-MountedPool =
    search (keeps_rules, fresh_mount-MountedPool, mount_table-MountedPool, mount_primed-MountedPool)
      depth 20

pub flogfs_initialize-MountedPool :
    (params : Params) (s : Fs) → Holds MountedPool (flogfs_initialize params s)
unfolding flogfs_initialize
flogfs_initialize-MountedPool params s = holds (record { size = refl; pool = inl refl })
