-- ===== src/Cv/Share/Laws.antt =====
-- The public link shows a CV while it is public, and only then.
use prismacv_backend.Shared.{
  ℕ, ◌≡◌, refl, sym, ap, ◌∙◌, String, Bool, true, false, Option, some, none, if◌then◌else◌, ok, err,
  not_found, str_eq, arith, inl, inr, Bool-cases, Option-cases, Result-cases, eq_iff, eq_refl,
  str_eq-true, ◌⊎◌,
}
use prismacv_backend.Shared.Table.{change, keep_unless}
use prismacv_backend.Cv.Model.{CvRow, CvShare, CvPrisma, CvDb}
use prismacv_backend.Cv.Editor.{FullCv, include_all}
use prismacv_backend.Cv.Editor.Laws.{owned-eq-ok}
use prismacv_backend.Cv.Share.{
  share_cv, unshare_cv, get_public_cv, find_share, viewed, set_public, new_share, share_slug_of,
  with_public,
}

module _ (p : CvPrisma) where
  abbrev pub is_shown : Option CvShare → Bool
  is_shown none = false
  is_shown (some s) = s.is_public

  module _ (at slug : String) (db : CvDb p) where
    pub get_public_cv-hidden :
        is_shown (find_share p db slug) ≡ false
        → get_public_cv p at slug db ≡ (err (not_found "Shared CV not found"), db)
    unfolding get_public_cv
    get_public_cv-hidden h = elim (Option-cases (find_share p db slug)) [
      | inl e ↦ rw e refl
      | inr (s, e) ↦ let hidden : s.is_public ≡ false = ground (arith, e, h) in rw (e, hidden) refl
    ]

    -- What a link that is answered shows, and the count of the views.
    abbrev IsOpened : FullCv → CvDb p → Type 0
    IsOpened full db' =
        (s : CvShare) × (c : CvRow) × (find_share p db slug ≡ some s)
        × (s.is_public ≡ true)
        × (p.cvs.find db.cvs s.cv_id ≡ some c)
        × (full ≡ include_all p db c)
        × ((k : String)
            → p.shares.find db'.shares k ≡ (
                if str_eq s.cv_id k
                then change (viewed at) (p.shares.find db.shares k)
                else p.shares.find db.shares k))

    view_shown :
        (s : CvShare) (c : CvRow) (full : FullCv) (db' : CvDb p)
        → find_share p db slug ≡ some s
        → s.is_public ≡ true
        → p.cvs.find db.cvs s.cv_id ≡ some c
        → get_public_cv p at slug db ≡ (ok full, db')
        → IsOpened full db'
    unfolding get_public_cv
    view_shown s c full db' found shown there h =
        elim (Result-cases (p.shares.update db.shares s.cv_id (viewed at))) [
          | inr (x, e) ↦ ground (arith, h, found, shown, there, e)
          | inl ((s', shares), e) ↦
              let same : shares ≡ db'.shares = ground (arith, h, found, shown, there, e) in
              (
                s,
                c,
                found,
                shown,
                there,
                ground (arith, h, found, shown, there, e),
                λ k.
                    ap (λ t. p.shares.find t k) (sym same)
                    ∙ p.shares.find-update db.shares shares s.cv_id (viewed at) s' k (λ r. refl) e,
              )
        ]

    pub get_public_cv_sound :
        (full : FullCv) (db' : CvDb p)
        → get_public_cv p at slug db ≡ (ok full, db')
        → IsOpened full db'
    unfolding get_public_cv
    get_public_cv_sound full db' h = elim (Option-cases (find_share p db slug)) [
      | inl e ↦ ground (arith, h, e)
      | inr (s, e) ↦ elim (Bool-cases s.is_public) [
        | inr f ↦ ground (arith, h, e, f)
        | inl f ↦ elim (Option-cases (p.cvs.find db.cvs s.cv_id)) [
          | inl g ↦ ground (arith, h, e, f, g)
          | inr (c, g) ↦ view_shown s c full db' e f g h
        ]
      ]
    ]

  -- The CV has no public link.
  abbrev IsClosed : String → CvDb p → Type 0
  IsClosed cv_id db = (s : CvShare) → p.shares.find db.shares cv_id ≡ some s → s.is_public ≡ false

  include_all-cv : (db : CvDb p) (c : CvRow) → (include_all p db c).cv ≡ c
  unfolding include_all
  include_all-cv db c = refl

  closed_hides :
      (cv_id at slug : String) (db db' : CvDb p) (full : FullCv)
      → IsClosed cv_id db
      → get_public_cv p at slug db ≡ (ok full, db')
      → str_eq full.cv.id cv_id ≡ false
  closed_hides cv_id at slug db db' full closed h =
      let (s, c, found, shown, there, same, counts) = get_public_cv_sound at slug db full db' h in
      let stored =
        (p.shares.find_first_sound db.shares (λ x. str_eq x.share_slug slug) s found).0 in
      let shows : full.cv ≡ c = ap (λ x. x.cv) same ∙ include_all-cv db c in
      let of : c.id ≡ s.cv_id = p.cvs.find-eq-some db.cvs s.cv_id c there in
      elim (Bool-cases (str_eq full.cv.id cv_id)) [
        | inr other ↦ other
        | inl e ↦
            let here : s.cv_id ≡ cv_id =
              sym of ∙ ap (λ x. x.id) (sym shows) ∙ str_eq-true full.cv.id cv_id e in
            ground (arith, shown, closed s (ap (p.shares.find db.shares) (sym here) ∙ stored))
      ]

  module _ (cv_id user_id : String) (db db' : CvDb p) where
    dropped :
        (s : CvShare)
        → keep_unless (λ s. str_eq s.cv_id cv_id) (p.shares.find db.shares cv_id) ≡ some s
        → s.is_public ≡ false
    dropped s e = elim (Option-cases (p.shares.find db.shares cv_id)) [
      | inl gone ↦ ground (arith, e, gone)
      | inr (x, there) ↦
          ground
            (arith, e, there, eq_iff x.cv_id cv_id, p.shares.find-eq-some db.shares cv_id x there)
    ]

    set_public-IsClosed :
        (drawn id : String) (now : ℕ) (s : CvShare) (o : Option CvShare)
        → p.shares.find db.shares cv_id ≡ o
        → set_public p drawn id now cv_id false o db ≡ (ok s, db')
        → IsClosed cv_id db'
    set_public-IsClosed drawn id now s none e h x there =
        let new = new_share id cv_id (share_slug_of drawn now) false in
        elim (Result-cases (p.shares.create db.shares new)) [
          | inr (y, f) ↦ ground (arith, h, f)
          | inl (shares, f) ↦
              let same : shares ≡ db'.shares = ground (arith, h, f) in
              ground (
                arith,
                ap (λ t. p.shares.find t cv_id) same,
                there,
                eq_refl cv_id,
                p.shares.find-create db.shares shares new cv_id f,
              )
        ]
    set_public-IsClosed drawn id now s (some old) e h x there =
        elim (Result-cases (p.shares.update db.shares cv_id (with_public false))) [
          | inr (y, f) ↦ ground (arith, h, f)
          | inl ((s', shares), f) ↦
              let same : shares ≡ db'.shares = ground (arith, h, f) in
              ground (
                arith,
                ap (λ t. p.shares.find t cv_id) same,
                there,
                e,
                eq_refl cv_id,
                p.shares.find-update db.shares shares cv_id (with_public false) s' cv_id (λ r. refl)
                    f,
              )
        ]

    unshare_cv-IsClosed : unshare_cv p cv_id user_id db ≡ (ok tt, db') → IsClosed cv_id db'
    unfolding unshare_cv
    unshare_cv-IsClosed h s e =
        let (c, there, own, done) =
          owned-eq-ok p cv_id user_id
            (λ cv db. (
              ok tt,
              record db { shares = p.shares.delete_many db.shares (λ s. str_eq s.cv_id cv_id) },
            ))
            db tt db' h in
        let same = ap (λ r. p.shares.find r.1.shares cv_id) done in
        dropped s
          (sym (p.shares.find-delete_many db.shares (λ s. str_eq s.cv_id cv_id) cv_id) ∙ same ∙ e)

    share_cv-IsClosed :
        (drawn id : String) (now : ℕ) (s : CvShare)
        → share_cv p drawn id now cv_id user_id false db ≡ (ok s, db')
        → IsClosed cv_id db'
    unfolding share_cv
    share_cv-IsClosed drawn id now s h x e =
        let (c, there, own, done) =
          owned-eq-ok p cv_id user_id
            (λ cv db. set_public p drawn id now cv_id false (p.shares.find db.shares cv_id) db) db s
            db' h in
        set_public-IsClosed drawn id now s (p.shares.find db.shares cv_id) refl done x e

    -- After the owner has unshared a CV, or shared it as not public, no public link shows it,
    -- whatever the link and the time.
    pub closed-get_public_cv :
        (drawn id : String) (now : ℕ) (s : CvShare) (at slug : String) (full : FullCv)
        (later : CvDb p)
        → (unshare_cv p cv_id user_id db ≡ (ok tt, db'))
          ⊎ (share_cv p drawn id now cv_id user_id false db ≡ (ok s, db'))
        → get_public_cv p at slug db' ≡ (ok full, later)
        → str_eq full.cv.id cv_id ≡ false
    closed-get_public_cv drawn id now s at slug full later (inl h) =
        closed_hides cv_id at slug db' later full (unshare_cv-IsClosed h)
    closed-get_public_cv drawn id now s at slug full later (inr h) =
        closed_hides cv_id at slug db' later full (share_cv-IsClosed drawn id now s h)
