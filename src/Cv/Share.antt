-- ===== src/Cv/Share.antt =====
-- src/modules/cv/cv.service.ts: the public link of a CV.
pub mod Laws
use Prim.Native.String.{slice}
use prismacv_backend.Shared.{
  ℕ, suc, ◌+◌, String, Bool, true, false, Option, none, some, str_eq, Result, ok, err, M, pure,
  guard, stored, stored_with, or_throw, ◌>>=◌, ◌>>◌, not_found, internal,
}
use prismacv_backend.Shared.Text.{◌&◌, to_base_36}
use prismacv_backend.Cv.Model.{CvRow, CvShare, CvPrisma, CvDb}
use prismacv_backend.Cv.Editor.{FullCv, find_cv_or_throw, include_all}

-- The response leaves out nothing of the row but `updatedAt`.
abbrev pub new_share : String → String → String → Bool → CvShare
new_share id cv_id share_slug is_public = record {
  id = id;
  cv_id = cv_id;
  share_slug = share_slug;
  is_public = is_public;
  view_count = 0;
  download_count = 0;
  last_viewed_at = none;
}

-- Eight characters of a drawn id, and the time.
abbrev pub share_slug_of : String → ℕ → String
share_slug_of drawn now = slice drawn 0 8 & "-" & to_base_36 now

abbrev pub with_public : Bool → CvShare → CvShare
with_public is_public s = record s { is_public = is_public }

abbrev pub viewed : String → CvShare → CvShare
viewed at s = record s { view_count = s.view_count + 1; last_viewed_at = some at }

module _ (p : CvPrisma) where
  abbrev pub change_share : String → (CvShare → CvShare) → M (CvDb p) CvShare
  change_share cv_id f db =
      stored_with (p.shares.update db.shares cv_id f) (λ shares. record db { shares = shares }) db

  abbrev pub insert_share : CvShare → M (CvDb p) CvShare
  insert_share s db =
      (do stored (p.shares.create db.shares s) (λ shares. record db { shares = shares }); pure s) db

  abbrev pub set_public : String → String → ℕ → String → Bool → Option CvShare → M (CvDb p) CvShare
  set_public drawn id now cv_id is_public (some existing) =
      change_share cv_id (with_public is_public)
  set_public drawn id now cv_id is_public none =
      insert_share (new_share id cv_id (share_slug_of drawn now) is_public)

  -- `drawn` and `id` are drawn by generateUuidv7, `now` is Date.now().
  unfoldable pub share_cv : String → String → ℕ → String → String → Bool → M (CvDb p) CvShare
  unfolding find_cv_or_throw
  share_cv drawn id now cv_id user_id is_public = do
    cv ← find_cv_or_throw p cv_id user_id
    λ db. set_public drawn id now cv_id is_public (p.shares.find db.shares cv_id) db

  unfoldable pub unshare_cv : String → String → M (CvDb p) (Unit {0})
  unfolding find_cv_or_throw
  unshare_cv cv_id user_id = do
    cv ← find_cv_or_throw p cv_id user_id
    λ db. (ok tt, record db { shares = p.shares.delete_many db.shares (λ s. str_eq s.cv_id cv_id) })

  unfoldable pub get_share_info : String → String → M (CvDb p) (Option CvShare)
  unfolding find_cv_or_throw
  get_share_info cv_id user_id = do
    cv ← find_cv_or_throw p cv_id user_id
    λ db. (ok (p.shares.find db.shares cv_id), db)

  -- `findUnique({ where: { shareSlug }, include: { cv } })`; the CV of a share is there, as its foreign
  -- key says.
  abbrev pub find_share : CvDb p → String → Option CvShare
  find_share db share_slug = p.shares.find_first db.shares (λ s. str_eq s.share_slug share_slug)

  -- `at` is the text of the time of the request.
  unfoldable pub get_public_cv : String → String → M (CvDb p) FullCv
  unfolding include_all
  get_public_cv at share_slug db =
      (do
        share ← or_throw (find_share db share_slug) (not_found "Shared CV not found")
        guard share.is_public (not_found "Shared CV not found")
        cv ← or_throw (p.cvs.find db.cvs share.cv_id) (internal "")
        updated ← change_share share.cv_id (viewed at)
        pure (include_all p db cv))
        db
