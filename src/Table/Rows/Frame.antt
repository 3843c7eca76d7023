-- ===== src/Table/Rows/Frame.antt =====
-- The operations on rows of table.go leave the snapshot of their transaction alone.
use mini_database_v.Base.{
  ◌≡◌, refl, ℕ, zero, suc, Bool, true, false, Bool-cases, Option, none, some, List, [], ◌∷◌, length,
  take, drop, get_elem?, ◌==◌, Option-cases, inl, inr, if◌then◌else◌, not, ◌&&◌,
}
use mini_database_v.Base
use mini_database_v.Base.Bytes.{Bytes}
use mini_database_v.Cmp.{Cmp, cmp2dir}
use mini_database_v.Btree.Pages.{PageOps}
use mini_database_v.Btree.Pages.Memory.{memory}
use mini_database_v.Btree.Pages.Grown.{Grows-refl}
use mini_database_v.Btree.Iter.{BIter, seek}
use mini_database_v.Tx.State.{Kvtx}
use mini_database_v.Tx.Ops.{Tree, seek_range, add_read}
use mini_database_v.Tx.Ops.Frame.{Framed}
use mini_database_v.Tx.Combined.{CombinedIter}
use mini_database_v.Table.Value.{Record}
use mini_database_v.Table.Result.{M, Res, ok, err}
use mini_database_v.Table.Result.Keeps.{
  Keeps, pure-Keeps, panic-Keeps, check-Keeps, total-Keeps, assert_that-Keeps, bind-Keeps,
}
use mini_database_v.Table.Schema.{TableDef, select_index}
use mini_database_v.Table.Rows.{
  Scanner, never_fails, kv_seek, scan_at, db_scan, deref_with, db_get, scan_deref,
}

module _ {T : Type 0} where
  pub if-Keeps :
      {A : Type 0} {m k : M (Kvtx T) A} (b : Bool) → Keeps m → Keeps k → Keeps (if b then m else k)
  if-Keeps true p q = p
  if-Keeps false p q = q

  pub bool-Keeps :
      {A : Type 0} {m k : M (Kvtx T) A} (b : Bool)
      → Keeps m
      → Keeps k
      → Keeps (elim b [ true ↦ m | false ↦ k ])
  bool-Keeps true p q = p
  bool-Keeps false p q = q

  pub option-Keeps :
      {A B : Type 0} {m : M (Kvtx T) A} {f : B → M (Kvtx T) A} (o : Option B)
      → Keeps m
      → ((b : B) → Keeps (f b))
      → Keeps (elim o [ none ↦ m | some b ↦ f b ])
  option-Keeps none p q = p
  option-Keeps (some b) p q = q b

  fine :
      {A : Type 0} (tx : Kvtx T) (o : Option (Res A × Kvtx T))
      → Framed tx o
      → Framed tx
          (elim o [ none ↦ none | some (err e, s') ↦ none | some (ok a, s') ↦ some (ok a, s') ])
  fine tx none h = tt
  fine tx (some (err e, tx')) h = tt
  fine tx (some (ok a, tx')) h = h

  pub never_fails-Keeps : {A : Type 0} {m : M (Kvtx T) A} → Keeps m → Keeps (never_fails m)
  unfolding never_fails
  never_fails-Keeps {m = m} p = record { framed = λ tx. fine tx (m tx) (p.framed tx) }

module _ (ops : PageOps) (levels : ℕ) where
  open ops use {Pages}

  abbrev Root : Type 0
  Root = Tree ops levels

  kv_seek-Keeps :
      (key1 : Bytes) (cmp1 : Cmp) (key2 : Bytes) (cmp2 : Cmp)
      → Keeps (kv_seek ops levels key1 cmp1 key2 cmp2)
  unfolding kv_seek seek_range
  kv_seek-Keeps key1 cmp1 key2 cmp2 = record {
    framed = λ tx.
        sought tx (cmp2dir cmp1) (cmp2dir cmp2)
          (seek memory tx.pending.pages levels tx.pending.root key1 cmp1)
          (seek ops tx.snapshot.pages levels tx.snapshot.root key1 cmp1);
  }
    where
      sought :
          (tx : Kvtx Root) (d d2 : Option Bool) (i i' : Option BIter)
          → Framed {A = Res (CombinedIter Pages)} tx (
              Base.◌>>=◌
                (Base.◌>>=◌ d λ forward. Base.◌>>=◌ d2 λ forward2.
                  Base.◌>>=◌
                    (Base.assert (if forward then not forward2 else forward2))
                    λ _. some (if forward then add_read key1 key2 tx else add_read key2 key1 tx))
                λ tx'. Base.◌>>=◌ d λ direction. Base.◌>>=◌ i λ top. Base.◌>>=◌ i' λ bottom. some (
                  ok (record {
                    top = top;
                    top_pages = tx.pending.pages;
                    bottom = bottom;
                    bottom_pages = tx.snapshot.pages;
                    direction = direction;
                    end_key = key2;
                    end_cmp = cmp2;
                  }),
                  tx',
                ))
      sought tx none d2 i i' = tt
      sought tx (some d) none i i' = tt
      sought tx (some true) (some true) i i' = tt
      sought tx (some false) (some false) i i' = tt
      sought tx (some true) (some false) none i' = tt
      sought tx (some true) (some false) (some top) none = tt
      sought tx (some true) (some false) (some top) (some bottom) = record {
        snapshot = refl;
        version = refl;
        done = refl;
        pages = Grows-refl tx.pending.pages;
      }
      sought tx (some false) (some true) none i' = tt
      sought tx (some false) (some true) (some top) none = tt
      sought tx (some false) (some true) (some top) (some bottom) = record {
        snapshot = refl;
        version = refl;
        done = refl;
        pages = Grows-refl tx.pending.pages;
      }

  scan_at-Keeps :
      (tdef : TableDef) (key1 : Record) (cmp1 : Cmp) (key2 : Record) (cmp2 : Cmp) (i : ℕ)
      → Keeps (scan_at ops levels tdef key1 cmp1 key2 cmp2 i)
  unfolding scan_at
  scan_at-Keeps tdef key1 cmp1 key2 cmp2 i = bind-Keeps (total-Keeps _) λ prefix.
      bind-Keeps (total-Keeps _) λ start.
        bind-Keeps (total-Keeps _)
          λ stop. bind-Keeps (kv_seek-Keeps start cmp1 stop cmp2) λ iter. pure-Keeps _

  pub db_scan-Keeps :
      (tdef : TableDef) (key1 : Record) (cmp1 : Cmp) (key2 : Record) (cmp2 : Cmp)
      → Keeps (db_scan ops levels tdef key1 cmp1 key2 cmp2)
  unfolding db_scan
  db_scan-Keeps tdef key1 cmp1 key2 cmp2 = bind-Keeps (check-Keeps _) λ range.
      bind-Keeps (check-Keeps _) λ first. bind-Keeps (check-Keeps _) λ second.
        option-Keeps (select_index key1.cols key2.cols tdef.indexes) (check-Keeps _)
          (scan_at-Keeps tdef key1 cmp1 key2 cmp2)

  deref_with-Keeps :
      (get_row : TableDef → Record → M (Kvtx Root) (Option Record)) (sc : Scanner Pages)
      → ((tdef : TableDef) (rec : Record) → Keeps (get_row tdef rec))
      → Keeps (deref_with ops levels get_row sc)
  unfolding deref_with
  deref_with-Keeps get_row sc rows = bind-Keeps (total-Keeps _) λ valid.
      bind-Keeps (assert_that-Keeps valid) λ fine. bind-Keeps (total-Keeps _) λ kv.
        if-Keeps (sc.index == 0) (total-Keeps _) (
          bind-Keeps (bind-Keeps (assert_that-Keeps _) λ empty. total-Keeps _) λ rec.
            bind-Keeps (never_fails-Keeps (rows sc.tdef rec))
              λ row. option-Keeps row panic-Keeps pure-Keeps)

  pub db_get-Keeps :
      (reads : ℕ) (tdef : TableDef) (rec : Record) → Keeps (db_get ops levels reads tdef rec)
  unfolding db_get
  db_get-Keeps zero tdef rec = panic-Keeps
  db_get-Keeps (suc reads) tdef rec = bind-Keeps (total-Keeps _) λ pk.
      bind-Keeps (check-Keeps _) λ values.
        bind-Keeps
          (db_scan-Keeps tdef (record { cols = pk; vals = values }) Cmp.ge
            (record { cols = pk; vals = values }) Cmp.le)
          λ sc. bind-Keeps (total-Keeps _) λ valid.
            bool-Keeps valid
              (bind-Keeps (deref_with-Keeps _ sc (db_get-Keeps reads)) λ row. pure-Keeps (some row))
              (pure-Keeps none)

  pub scan_deref-Keeps : (sc : Scanner Pages) → Keeps (scan_deref ops levels sc)
  unfolding scan_deref
  scan_deref-Keeps sc = deref_with-Keeps (db_get ops levels 1) sc (db_get-Keeps 1)
