-- ===== src/Publisher/Takeover.antt =====
-- What `takeover` of internal/application/publisher/runner.go does to the stored records.
use config_sync_nginx.Base.{
  ◌≢◌, ℕ, String, Bool, false, not, ◌&&◌, ◌||◌, ◌==◌, ◌≡◌, refl, some, inl, inr, arith, eq_iff,
  eq_refl, Bool-cases, Option-cases,
}
use config_sync_nginx.Base.Dict.{lookup, lookup-insert}
use config_sync_nginx.Release.Types.{failed, ApplyRequest, is_terminal}
use config_sync_nginx.State.{TargetState, Record}
use config_sync_nginx.Publisher.World.{if◌then◌else◌, on_none}
use config_sync_nginx.Publisher.Apply.{superseded, supersede, takeover}

-- Whether `takeover` ends the release: it is the active one, another one than that of the request,
-- and not ended yet.
unfoldable pub is_ended_by : ApplyRequest → TargetState → String → Record → Bool
is_ended_by req st id rec =
    (st.active_id == id)
    && not (id == "")
    && not (id == req.release_id)
    && not (is_terminal rec.result.status)

module _ (time : ℕ) (req : ApplyRequest) (st : TargetState) (id : String) (rec : Record)
    (found : lookup id st.records ≡ some rec) where
  -- Where the active release is another one, or there is none.
  kept :
      st.active_id ≢ id
      → lookup id (supersede time st.active_id req.release_id st.records) ≡ some rec
  unfolding supersede if◌then◌else◌ on_none
  kept apart = elim (Bool-cases (st.active_id == "" || st.active_id == req.release_id)) [
    | inl e ↦ rw (e) found
    | inr e ↦ rw (e) elim (Option-cases (lookup st.active_id st.records)) [
      | inl none_there ↦ rw (none_there) found
      | inr (active, there) ↦ rw (there) elim (Bool-cases (is_terminal active.result.status)) [
        | inl ended ↦ rw (ended) found
        | inr unfinished ↦ rw (unfinished) ground (
          arith,
          eq_iff st.active_id id,
          lookup-insert st.active_id id (superseded time active) st.records,
        )
      ]
    ]
  ]

  -- The active release itself.
  ended :
      st.active_id ≡ id
      → lookup id (supersede time st.active_id req.release_id st.records)
        ≡ some (if is_ended_by req st id rec then superseded time rec else rec)
  unfolding supersede if◌then◌else◌ on_none is_ended_by
  ended same =
      rw (same, found) ground
        (arith, eq_refl id, lookup-insert id id (superseded time rec) st.records)

  -- Another release.
  not_ended :
      (st.active_id == id) ≡ false
      → lookup id (supersede time st.active_id req.release_id st.records)
        ≡ some (if is_ended_by req st id rec then superseded time rec else rec)
  unfolding if◌then◌else◌ is_ended_by
  not_ended apart =
      rw (apart) (kept (λ same. let yes = (eq_iff st.active_id id).1 same in absurd (cc)))

-- `takeover` ends the active release, if that is unfinished and another one than that of the request: its
-- record gets the status `failed`, the error code `SUPERSEDED` with its text, the time, and the HTTP status
-- 409, and is otherwise as before. Every other stored record stays as it was. Behind it no release is
-- active, and the mark of recovery of the target is cleared, whether it was set or not.
pub takeover-lookup :
    (time : ℕ) (req : ApplyRequest) (st : TargetState) (id : String) (rec : Record)
    → lookup id st.records ≡ some rec
    → (lookup id (takeover time req st).records
        ≡ some (
            if is_ended_by req st id rec
            then (record rec {
              result = record (rec.result) {
                status = failed;
                error_code = "SUPERSEDED";
                error = "superseded by a newer publication";
                finished_at = time;
              };
              http_status = 409;
            })
            else rec))
      × ((takeover time req st).active_id ≡ "")
      × ((takeover time req st).recovery_required ≡ false)
unfolding takeover supersede superseded is_ended_by if◌then◌else◌ on_none
takeover-lookup time req st id rec found = (
  elim (Bool-cases (st.active_id == id)) [
    | inl same ↦ ended time req st id rec found ((eq_iff st.active_id id).0 same)
    | inr apart ↦ not_ended time req st id rec found apart
  ],
  refl,
  refl,
)
