-- ===== src/Util/Ledger.antt =====
-- lsfmgr/util.py, ledger_add and ledger_remove: lists under keys, with no empty list.
use pyqt_lsf_job_manager.Base.{
  ℕ, String, ◌≡◌, some, List, [], ◌∷◌, ◌++◌, Dict, get, put, pop, get-put, get-pop, or_default,
  is_empty, if◌then◌else◌, ◌==◌, ite, string_key, String_discrete, arith,
}

-- An item with the identity of its object.
pub record Item (A : Type 0) : Type 0 where
  pub ident : ℕ
  pub value : A

abbrev pub Ledger : Type 0 → Type 0
Ledger A = Dict String (List (Item A))

module _ {A : Type 0} where
  -- The items under a key.
  abbrev pub entries : String → Ledger A → List (Item A)
  entries key table = or_default [] (get key table)

  unfoldable pub ledger_add : Ledger A → String → Item A → Ledger A
  ledger_add table key item = put key (entries key table ++ item ∷ []) table

  -- The loop that deletes the first item with the identity.
  unfoldable pub delete_item : ℕ → List (Item A) → List (Item A)
  delete_item ident [] = []
  delete_item ident (x ∷ xs) = if x.ident == ident then xs else x ∷ delete_item ident xs

  unfoldable pub ledger_remove : Ledger A → String → ℕ → Ledger A
  unfolding delete_item
  ledger_remove table key ident =
      if is_empty (entries key table)
      then table
      else let rest = delete_item ident (entries key table) in
        if is_empty rest then pop key table else put key rest table

  pub entries-ledger_add :
      (table : Ledger A) (key : String) (item : Item A) (j : String)
      → entries j (ledger_add table key item)
        ≡ ite (String_discrete key j) (entries key table ++ item ∷ []) (entries j table)
  unfolding ledger_add
  entries-ledger_add table key item j =
      ground (arith, get-put key (entries key table ++ item ∷ []) table j)

  pub entries-ledger_remove :
      (table : Ledger A) (key : String) (ident : ℕ) (j : String)
      → entries j (ledger_remove table key ident)
        ≡ ite (String_discrete key j) (delete_item ident (entries key table)) (entries j table)
  unfolding ledger_remove
  entries-ledger_remove table key ident j =
      ground
        (arith, get-put key (delete_item ident (entries key table)) table j, get-pop key table j)

  -- No entry of the ledger is an empty list.
  abbrev pub NoEmpty : Ledger A → Type 0
  NoEmpty table = (key : String) → get key table ≡ some [] → ⊥
