-- ===== src/MultiIndex/Tests.antt =====
-- A table of accounts by number, with an index by a name, and a singleton, over the host that keeps its
-- rows as functions.
use taurus_cdt.Prelude.{
  ℕ, ◌-◌, ◌^◌, ◌≡◌, subst, ◌≤◌, ◌<◌, refl, [], ◌∷◌, ◌==◌, Option, none, some, ==_iff, arith, ok,
}
use taurus_cdt.MultiIndex.Host.{Bytes}
use taurus_cdt.MultiIndex.MapHost.{set_row, set_entry, map_host, nothing}
use taurus_cdt.MultiIndex.MapLaws.{
  map_host-HostLaws, map_host-OrderLaws, map_host-IndexLaws, by_value, by_value-KeyOrderLaws,
}
use taurus_cdt.MultiIndex.{
  Schema, Lawful, Item, Ref, Table, with_iter, find, emplace, modify, erase, for_each, store_index,
  push_item, next_after, find_last,
}
use taurus_cdt.MultiIndex.Consistency.{Consistent}
use taurus_cdt.MultiIndex.Find.{Finds, find-content}
use taurus_cdt.MultiIndex.Change.{Wrote}
use taurus_cdt.MultiIndex.Emplace.{Emplaces, emplace-content}
use taurus_cdt.MultiIndex.Modify.{Live, Modifies, modify-content}
use taurus_cdt.MultiIndex.Erase.{erase-content}
use taurus_cdt.MultiIndex.Iterator
use taurus_cdt.MultiIndex.Reach.{Reaches, bounds-Reaches}
use taurus_cdt.MultiIndex.NextKey.{Ahead}
use taurus_cdt.MultiIndex.FreeKey.{available_primary_key-emplace}
use taurus_cdt.MultiIndex.Secondary.{find_secondary}
use taurus_cdt.MultiIndex.Secondary.Search.{FindsSecondary, find_secondary-content}
use taurus_cdt.MultiIndex.Singleton
use taurus_cdt.MultiIndex.Singleton.Contents.{Ready, Reads, set-get}

record Account : Type 0 where
  id : ℕ
  name : ℕ

abbrev unpack : Bytes → Option Account
unpack [] = none
unpack (i ∷ []) = none
unpack (i ∷ n ∷ rest) = some (record { id = i; name = n })

abbrev name_of : Account → ℕ
name_of a = a.name

abbrev accounts : Schema Account ℕ
accounts = record {
  primary_key = λ a. a.id;
  extractors = name_of ∷ [];
  pack = λ a. a.id ∷ a.name ∷ [];
  unpack = unpack;
  same = λ x y. x == y;
}

accounts-Lawful : Lawful accounts
accounts-Lawful = record { unpack-pack = λ v. refl; same_eq = λ x y e. (==_iff x y).0 e }

abbrev fresh : Table accounts map_host
fresh = record { this = 1; code = 7; items = []; next_primary_key = 2 ^ 64 - 1; store = nothing }

none_row : (k h : ℕ) (b : Bytes) (r : Option (ℕ × Bytes)) → r ≡ none → r ≡ some (h, b) → ⊥
none_row k h b r e f = cc

fresh-Consistent : Consistent accounts map_host fresh
fresh-Consistent = record {
  filed = record {
    rows = λ k h b e. absurd (none_row k h b none refl e);
    bare = λ k n e q g. refl;
  };
  cached = tt;
  distinct = tt;
}

abbrev ann : Account
ann = record { id = 3; name = 40 }

abbrev bob : Account
bob = record { id = 5; name = 20 }

abbrev ann_item : Item Account
ann_item = record {
  obj = ann;
  primary_itr = 3;
  iters = with_iter accounts map_host (λ n. none) 0 (some 3);
}

-- The table in which Ann's account was emplaced.
abbrev one : Table accounts map_host
one = record {
  this = 1;
  code = 7;
  items = ann_item ∷ [];
  next_primary_key = 2 ^ 64 - 1;
  store = set_entry (set_row nothing 3 (some (3 ∷ 40 ∷ []))) 0 3 (some 40);
}

fresh-one : emplace accounts map_host fresh ann ≡ ok (ann_item, one)
unfolding emplace for_each store_index push_item next_after
fresh-one = refl

one-Wrote : Wrote accounts map_host fresh 3 (some ann) one
one-Wrote =
    let e : Emplaces accounts map_host accounts-Lawful map_host-HostLaws fresh ann
        (ok (ann_item, one)) =
      subst (Emplaces accounts map_host accounts-Lawful map_host-HostLaws fresh ann) fresh-one (
        emplace-content accounts map_host accounts-Lawful map_host-HostLaws fresh ann refl
          fresh-Consistent) in
    e.2

one-Consistent : Consistent accounts map_host one
one-Consistent = one-Wrote.consistent

find-content_example :
    Finds accounts map_host accounts-Lawful map_host-HostLaws one 3 (find accounts map_host one 3)
find-content_example =
    find-content accounts map_host accounts-Lawful map_host-HostLaws one 3 one-Consistent

emplace-content_example :
    Emplaces accounts map_host accounts-Lawful map_host-HostLaws one bob
      (emplace accounts map_host one bob)
emplace-content_example =
    emplace-content accounts map_host accounts-Lawful map_host-HostLaws one bob refl one-Consistent

abbrev to_ann : Ref
to_ann = record { idx = 1; itr = 3 }

to_ann-Live : Live accounts map_host accounts-Lawful map_host-HostLaws one to_ann ann_item
unfolding find_last
to_ann-Live = (refl, refl)

abbrev renamed : Account → Account
renamed a = record { id = a.id; name = 41 }

modify-content_example :
    Modifies accounts map_host accounts-Lawful map_host-HostLaws one to_ann ann_item
      (renamed ann)
      (modify accounts map_host one to_ann renamed)
modify-content_example =
    modify-content accounts map_host accounts-Lawful map_host-HostLaws one to_ann ann_item renamed
      refl one-Consistent to_ann-Live

erase-content_example :
    (m' : Table accounts map_host) × (erase accounts map_host one to_ann ≡ ok m')
    × Wrote accounts map_host one 3 none m'
erase-content_example =
    erase-content accounts map_host accounts-Lawful map_host-HostLaws one to_ann ann_item refl
      one-Consistent to_ann-Live

bounds-Reaches_example :
    Reaches accounts map_host accounts-Lawful map_host-HostLaws one
      (λ j. 2 ≤ j)
      (λ k j. k ≤ j)
      (Iterator.lower_bound accounts map_host one 2)
    × (Reaches accounts map_host accounts-Lawful map_host-HostLaws one
          (λ j. 2 < j)
          (λ k j. k ≤ j)
          (Iterator.upper_bound accounts map_host one 2)
        × Reaches accounts map_host accounts-Lawful map_host-HostLaws one
            (λ j. 3 < j)
            (λ k j. k ≤ j)
            (Iterator.increment accounts map_host one (some ann_item)))
bounds-Reaches_example =
    bounds-Reaches accounts map_host accounts-Lawful map_host-HostLaws one 2 ann_item
      map_host-OrderLaws one-Consistent one-Consistent.cached.0

fresh-Ahead : Ahead accounts map_host accounts-Lawful map_host-HostLaws fresh
fresh-Ahead = (omega arith, λ h. absurd (omega (arith, h)))

abbrev numbered : Table accounts map_host
numbered = record { this = 1; code = 7; items = []; next_primary_key = 0; store = nothing }

first_key : Iterator.available_primary_key accounts map_host fresh ≡ ok (0, numbered)
unfolding Iterator.available_primary_key Iterator.find_next_primary_key Iterator.begin
    Iterator.lower_bound Iterator.load_at Iterator.next_of_first
first_key = refl

abbrev eve : Account
eve = record { id = 0; name = 9 }

available_primary_key-emplace_example :
    (i : Item Account) × (m : Table accounts map_host) × (emplace accounts map_host numbered eve
      ≡ ok (i, m))
    × Wrote accounts map_host numbered 0 (some eve) m
    × Ahead accounts map_host accounts-Lawful map_host-HostLaws m
available_primary_key-emplace_example =
    available_primary_key-emplace accounts map_host accounts-Lawful map_host-HostLaws fresh numbered
      0 eve map_host-OrderLaws fresh-Consistent fresh-Ahead first_key refl refl

find_secondary-content_example :
    FindsSecondary accounts map_host by_value 0 name_of accounts-Lawful map_host-HostLaws refl one
      40
      (find_secondary accounts map_host by_value 0 name_of one 40)
find_secondary-content_example =
    find_secondary-content accounts map_host by_value 0 name_of accounts-Lawful map_host-HostLaws
      refl one 40 by_value-KeyOrderLaws map_host-IndexLaws one-Consistent

-- A singleton of a number, under the key 9.
abbrev counter : Schema ℕ ℕ
counter = record {
  primary_key = λ v. 9;
  extractors = [];
  pack = λ v. v ∷ [];
  unpack = λ b. elim b [ [] ↦ none | n ∷ rest ↦ some n ];
  same = λ x y. x == y;
}

counter-Lawful : Lawful counter
counter-Lawful = record { unpack-pack = λ v. refl; same_eq = λ x y e. (==_iff x y).0 e }

abbrev empty : Table counter map_host
empty = record { this = 1; code = 7; items = []; next_primary_key = 2 ^ 64 - 1; store = nothing }

empty-Ready : Ready counter map_host 9 counter-Lawful map_host-HostLaws (λ v. refl) empty
empty-Ready = record {
  own = refl;
  consistent = record {
    filed = record {
      rows = λ k h b e. absurd (none_row k h b none refl e);
      bare = λ k n e q g. refl;
    };
    cached = tt;
    distinct = tt;
  };
}

set-get_example :
    (m : Table counter map_host) × (Singleton.set counter map_host 9 12 empty ≡ ok m)
    × Reads counter map_host 9 counter-Lawful map_host-HostLaws
        (λ v. refl)
        12
        (Singleton.get counter map_host 9 m)
set-get_example =
    set-get counter map_host 9 counter-Lawful map_host-HostLaws (λ v. refl) empty 12 empty-Ready
