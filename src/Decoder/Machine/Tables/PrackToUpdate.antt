-- ===== src/Decoder/Machine/Tables/PrackToUpdate.antt =====
-- decoder/machine.go: the switches of the states of PRACK, PUBLISH, REFER, REGISTER, SUBSCRIBE and UPDATE.
use heplify.Common.{[], ◌∷◌}
use heplify.Decoder.Machine.Labels.{Switch, on, st}

abbrev pub case_47 : Switch
case_47 = (on 67 (st 2) ∷ on 82 (st 48) ∷ on 85 (st 49) ∷ on 99 (st 2) ∷ [], st 1)

abbrev pub case_48 : Switch
case_48 = (on 65 (st 15) ∷ on 67 (st 2) ∷ on 99 (st 2) ∷ [], st 1)

abbrev pub case_49 : Switch
case_49 = (on 66 (st 50) ∷ on 67 (st 2) ∷ on 99 (st 2) ∷ [], st 1)

abbrev pub case_50 : Switch
case_50 = (on 67 (st 2) ∷ on 76 (st 51) ∷ on 99 (st 2) ∷ [], st 1)

abbrev pub case_51 : Switch
case_51 = (on 67 (st 2) ∷ on 73 (st 52) ∷ on 99 (st 2) ∷ [], st 1)

abbrev pub case_52 : Switch
case_52 = (on 67 (st 2) ∷ on 83 (st 53) ∷ on 99 (st 2) ∷ [], st 1)

abbrev pub case_53 : Switch
case_53 = (on 67 (st 2) ∷ on 72 (st 17) ∷ on 99 (st 2) ∷ [], st 1)

abbrev pub case_54 : Switch
case_54 = (on 67 (st 2) ∷ on 69 (st 55) ∷ on 99 (st 2) ∷ [], st 1)

abbrev pub case_55 : Switch
case_55 = (on 67 (st 2) ∷ on 70 (st 56) ∷ on 71 (st 58) ∷ on 99 (st 2) ∷ [], st 1)

abbrev pub case_56 : Switch
case_56 = (on 67 (st 2) ∷ on 69 (st 57) ∷ on 99 (st 2) ∷ [], st 1)

abbrev pub case_57 : Switch
case_57 = (on 67 (st 2) ∷ on 82 (st 17) ∷ on 99 (st 2) ∷ [], st 1)

abbrev pub case_58 : Switch
case_58 = (on 67 (st 2) ∷ on 73 (st 59) ∷ on 99 (st 2) ∷ [], st 1)

abbrev pub case_59 : Switch
case_59 = (on 67 (st 2) ∷ on 83 (st 60) ∷ on 99 (st 2) ∷ [], st 1)

abbrev pub case_60 : Switch
case_60 = (on 67 (st 2) ∷ on 84 (st 56) ∷ on 99 (st 2) ∷ [], st 1)

abbrev pub case_61 : Switch
case_61 = (on 67 (st 2) ∷ on 85 (st 62) ∷ on 99 (st 2) ∷ [], st 1)

abbrev pub case_62 : Switch
case_62 = (on 66 (st 63) ∷ on 67 (st 2) ∷ on 99 (st 2) ∷ [], st 1)

abbrev pub case_63 : Switch
case_63 = (on 67 (st 2) ∷ on 83 (st 64) ∷ on 99 (st 2) ∷ [], st 1)

abbrev pub case_64 : Switch
case_64 = (on 67 (st 65) ∷ on 99 (st 2) ∷ [], st 1)

abbrev pub case_65 : Switch
case_65 = (on 67 (st 2) ∷ on 82 (st 66) ∷ on 83 (st 3) ∷ on 99 (st 2) ∷ on 115 (st 3) ∷ [], st 1)

abbrev pub case_66 : Switch
case_66 = (on 67 (st 2) ∷ on 73 (st 67) ∷ on 99 (st 2) ∷ [], st 1)

abbrev pub case_67 : Switch
case_67 = (on 66 (st 20) ∷ on 67 (st 2) ∷ on 99 (st 2) ∷ [], st 1)

abbrev pub case_68 : Switch
case_68 = (on 67 (st 2) ∷ on 80 (st 69) ∷ on 99 (st 2) ∷ [], st 1)

abbrev pub case_69 : Switch
case_69 = (on 67 (st 2) ∷ on 68 (st 70) ∷ on 99 (st 2) ∷ [], st 1)

abbrev pub case_70 : Switch
case_70 = (on 65 (st 30) ∷ on 67 (st 2) ∷ on 99 (st 2) ∷ [], st 1)
