-- ===== src/Decoder/Machine/Scan.antt =====
-- decoder/machine.go: `parseCSeq`, the scanner of SIP's CSeq header that is generated from
-- decoder/machine.rl.
use heplify.Common.{
  ℕ, suc, ◌&&◌, List, [], ◌∷◌, Option, none, some, length, leb, ◌==◌, if◌then◌else◌,
}
use heplify.Common.Bytes.{Bytes}
use heplify.Decoder.Correlator.Search.{slice}
use heplify.Decoder.Machine.Labels.{Goto, leave, st, marking, parse_method, eob, Switch, choose}
use heplify.Decoder.Machine.Tables.Header.{
  case_1, case_2, case_3, case_4, case_5, case_6, case_7, case_8, case_9, case_10, case_11, case_12,
  case_13, case_14,
}
use heplify.Decoder.Machine.Tables.AckToInvite.{
  case_15, case_16, case_17, case_18, case_0, case_71, case_19, case_20, case_21, case_22, case_23,
  case_24, case_25, case_26, case_27, case_28, case_29, case_30,
}
use heplify.Decoder.Machine.Tables.MessageToOptions.{
  case_31, case_32, case_33, case_34, case_35, case_36, case_37, case_38, case_39, case_40, case_41,
  case_42, case_43, case_44, case_45, case_46,
}
use heplify.Decoder.Machine.Tables.PrackToUpdate.{
  case_47, case_48, case_49, case_50, case_51, case_52, case_53, case_54, case_55, case_56, case_57,
  case_58, case_59, case_60, case_61, case_62, case_63, case_64, case_65, case_66, case_67, case_68,
  case_69, case_70,
}

-- The jump table `switch cs`.
unfoldable pub states : List (ℕ × Switch)
states =
    (1, case_1)
    ∷ (2, case_2)
    ∷ (3, case_3)
    ∷ (4, case_4)
    ∷ (5, case_5)
    ∷ (6, case_6)
    ∷ (7, case_7)
    ∷ (8, case_8)
    ∷ (9, case_9)
    ∷ (10, case_10)
    ∷ (11, case_11)
    ∷ (12, case_12)
    ∷ (13, case_13)
    ∷ (14, case_14)
    ∷ (15, case_15)
    ∷ (16, case_16)
    ∷ (17, case_17)
    ∷ (18, case_18)
    ∷ (0, case_0)
    ∷ (71, case_71)
    ∷ (19, case_19)
    ∷ (20, case_20)
    ∷ (21, case_21)
    ∷ (22, case_22)
    ∷ (23, case_23)
    ∷ (24, case_24)
    ∷ (25, case_25)
    ∷ (26, case_26)
    ∷ (27, case_27)
    ∷ (28, case_28)
    ∷ (29, case_29)
    ∷ (30, case_30)
    ∷ (31, case_31)
    ∷ (32, case_32)
    ∷ (33, case_33)
    ∷ (34, case_34)
    ∷ (35, case_35)
    ∷ (36, case_36)
    ∷ (37, case_37)
    ∷ (38, case_38)
    ∷ (39, case_39)
    ∷ (40, case_40)
    ∷ (41, case_41)
    ∷ (42, case_42)
    ∷ (43, case_43)
    ∷ (44, case_44)
    ∷ (45, case_45)
    ∷ (46, case_46)
    ∷ (47, case_47)
    ∷ (48, case_48)
    ∷ (49, case_49)
    ∷ (50, case_50)
    ∷ (51, case_51)
    ∷ (52, case_52)
    ∷ (53, case_53)
    ∷ (54, case_54)
    ∷ (55, case_55)
    ∷ (56, case_56)
    ∷ (57, case_57)
    ∷ (58, case_58)
    ∷ (59, case_59)
    ∷ (60, case_60)
    ∷ (61, case_61)
    ∷ (62, case_62)
    ∷ (63, case_63)
    ∷ (64, case_64)
    ∷ (65, case_65)
    ∷ (66, case_66)
    ∷ (67, case_67)
    ∷ (68, case_68)
    ∷ (69, case_69)
    ∷ (70, case_70)
    ∷ []

unfoldable pub select : ℕ → List (ℕ × Switch) → Switch
select cs [] = ([], leave)
select cs ((n, switch) ∷ more) = let later = select cs more in if cs == n then switch else later

unfoldable pub goto : ℕ → ℕ → Goto
goto cs b = let (cases, other) = select cs states in choose cases other b

-- The variables of `parseCSeq` and the field `d.CSeq`.
pub record Scan : Type 0 where
  pub cs : ℕ
  pub p : ℕ
  pub mark : ℕ
  pub cseq : Option Bytes

-- `data[mark:p]`; `none` is the panic of bounds that are out of order or out of range.
unfoldable pub marked : Bytes → Scan → Option Bytes
marked msg s = if leb s.mark s.p && leb s.p (length msg) then some (slice s.mark s.p msg) else none

unfoldable pub with_cseq : Scan → Option Bytes → Option Scan
with_cseq s none = none
with_cseq s (some text) = some (record s { cseq = some text })

-- The action of a label, then `p++` on the way into its state.
unfoldable pub arrive : Bytes → Goto → Scan → Option Scan
arrive msg (st n) s = some (record s { cs = n; p = suc s.p })
arrive msg leave s = some (record s { cs = 0 })
arrive msg (marking n) s = some (record s { cs = n; mark = s.p; p = suc s.p })
arrive msg (parse_method n) s = with_cseq (record s { cs = n; p = suc s.p }) (marked msg s)
arrive msg (eob n) s = some (record s { cs = n; p = suc s.p })

-- One byte. In state 0 the scanner has been left: its switch leads nowhere else.
unfoldable pub step : Bytes → ℕ → Scan → Option Scan
step msg b s = arrive msg (goto s.cs b) s

-- A panic ends the scan.
abbrev pub carry : Option Scan → (Scan → Option Scan) → Option Scan
carry none f = none
carry (some s) f = f s

-- The rest of the data, byte for byte.
unfoldable pub exec : Bytes → Bytes → Scan → Option Scan
exec msg [] s = some s
exec msg (b ∷ rest) s = carry (step msg b s) (exec msg rest)

abbrev pub start : Scan
start = record { cs = 1; p = 0; mark = 0; cseq = none }

unfoldable pub parse_cseq : Bytes → Option Scan
parse_cseq msg = exec msg msg start
